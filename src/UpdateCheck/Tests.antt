-- ===== src/UpdateCheck/Tests.antt =====
-- A project whose SDK is below the floor, with the order of texts for semver's.
use w17ctl.Base.{codes, str_eq, str_compare, true, none, some, [], ◌∷◌, ◌≡◌, refl, inr, In, ◌↔◌}
use w17ctl.Base.Order.{str_compare-IsOrder}
use w17ctl.UpdateCheck.{
  Semver, Item, Sources, sdk, check, check_client, check_sdk, check_plugins, client_answer,
  sdk_answer, sdk_required, sdk_target, sdk_item,
}
use w17ctl.UpdateCheck.Behind.{IsBehind, HasRequired, IsBelowFloor, check-IsBehind}

abbrev by_text : Semver
by_text = record { is_valid = λ v. true; compare = str_compare; major = λ v. v }

abbrev old_sdk : Sources
old_sdk = record {
  client_current = codes "v1.0.0";
  client_latest = none;
  sdk_current = codes "v1.0.0";
  sdk_latest = some (inr (codes "v1.1.0"));
  sdk_floor = codes "v1.2.0";
  plugins = none;
}

abbrev floor_item : Item
floor_item = record {
  kind = sdk;
  name = [];
  current = codes "v1.0.0";
  latest = codes "v1.2.0";
  required = true;
}

reported : (check by_text old_sdk).items ≡ floor_item ∷ []
unfolding check check_client check_sdk check_plugins client_answer sdk_answer sdk_required
    sdk_target sdk_item str_compare str_eq
reported = refl

check-IsBehind_example :
    ((i : Item)
      → In i (check by_text old_sdk).items
      → IsBehind by_text str_compare-IsOrder old_sdk i.kind i)
    × (HasRequired by_text str_compare-IsOrder old_sdk (check by_text old_sdk).items
        ↔ IsBelowFloor by_text str_compare-IsOrder old_sdk)
check-IsBehind_example = check-IsBehind by_text str_compare-IsOrder old_sdk

is_required : HasRequired by_text str_compare-IsOrder old_sdk (check by_text old_sdk).items
unfolding str_compare
is_required = check-IsBehind_example.1.1 (refl, refl, refl)
