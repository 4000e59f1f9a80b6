-- ===== src/UpdateCheck.antt =====
-- internal/updatecheck/updatecheck.go: what is behind, and what must be updated. The package
-- golang.org/x/mod/semver is the record `Semver`; a question that is not asked is `none`, and one that
-- fails is an error's text.
mod Tests
pub mod Behind
use w17ctl.Base.{
  ℕ, Str, codes, str_eq, Ordering, Bool, true, false, not, ◌||◌, ◌&&◌, Option, none, some, List, [],
  ◌∷◌, ◌++◌, ◌⊎◌, inl, inr, if◌then◌else◌,
}
use w17ctl.Versions.{compare_versions}

pub record Semver : Type 0 where
  pub is_valid : Str → Bool
  pub compare : Str → Str → Ordering
  pub major : Str → Str

pub data Kind : Type 0 where
  client sdk plugin : Kind

-- `Item`, without the texts for a person
pub record Item : Type 0 where
  pub kind : Kind
  pub name : Str
  pub current : Str
  pub latest : Str
  pub required : Bool

pub record Report : Type 0 where
  pub items : List Item
  pub unknown : List Kind

pub record Plugin : Type 0 where
  pub name : Str
  pub installed : Str
  pub served : Str

pub record Sources : Type 0 where
  pub client_current : Str
  pub client_latest : Option (Str ⊎ Str)
  pub sdk_current : Str
  pub sdk_latest : Option (Str ⊎ Str)
  pub sdk_floor : Str
  pub plugins : Option (List Plugin × Bool)

abbrev pub is_gt : Ordering → Bool
is_gt Ordering.gt = true
is_gt Ordering.eq = false
is_gt Ordering.lt = false

abbrev pub is_lt : Ordering → Bool
is_lt Ordering.gt = false
is_lt Ordering.eq = false
is_lt Ordering.lt = true

abbrev pub nothing : Report
nothing = record { items = []; unknown = [] }

abbrev pub only : Item → Report
only i = record { items = i ∷ []; unknown = [] }

abbrev pub unanswered : Kind → Report
unanswered k = record { items = []; unknown = k ∷ [] }

abbrev pub and_then : Report → Report → Report
and_then r s = record { items = r.items ++ s.items; unknown = r.unknown ++ s.unknown }

module _ (v : Semver) where
  abbrev pub item : Kind → Str → Str → Bool → Item
  item k current latest required = record {
    kind = k;
    name = [];
    current = current;
    latest = latest;
    required = required;
  }

  unfoldable pub client_answer : Str → Option (Str ⊎ Str) → Report
  client_answer current none = nothing
  client_answer current (some (inl e)) = unanswered client
  client_answer current (some (inr latest)) =
      if v.is_valid latest && is_gt (v.compare latest current)
      then only (item client current latest false)
      else nothing

  -- the first question
  unfoldable pub check_client : Sources → Report
  unfolding client_answer
  check_client s =
      if v.is_valid s.client_current
      then client_answer s.client_current s.client_latest
      else nothing

  -- the latest SDK, empty where it is not known, and whether the question failed
  unfoldable pub sdk_answer : Option (Str ⊎ Str) → Str × Report
  sdk_answer none = ([], nothing)
  sdk_answer (some (inl e)) = ([], unanswered sdk)
  sdk_answer (some (inr latest)) = (if v.is_valid latest then latest else [], nothing)

  unfoldable pub sdk_required : Sources → Bool
  sdk_required s = v.is_valid s.sdk_floor && is_lt (v.compare s.sdk_current s.sdk_floor)

  -- `target`: the floor where it is required and the latest does not reach it
  unfoldable pub sdk_target : Sources → Str → Str
  unfolding sdk_required
  sdk_target s latest =
      if sdk_required s && (str_eq latest [] || is_lt (v.compare latest s.sdk_floor))
      then s.sdk_floor
      else latest

  unfoldable pub sdk_item : Sources → Str → Report
  unfolding sdk_target
  sdk_item s target =
      if sdk_required s || (not (str_eq target []) && is_gt (v.compare target s.sdk_current))
      then only (item sdk s.sdk_current target (sdk_required s))
      else nothing

  -- the second question
  unfoldable pub check_sdk : Sources → Report
  unfolding sdk_answer sdk_item
  check_sdk s =
      let (latest, failed) = sdk_answer s.sdk_latest in
      if v.is_valid s.sdk_current
      then and_then failed (sdk_item s (sdk_target s latest))
      else nothing

  unfoldable pub plugin_items : List Plugin → List Item
  plugin_items [] = []
  plugin_items (p ∷ ps) =
      let rest = plugin_items ps in
      if str_eq p.installed []
        || str_eq p.served []
        || not (is_lt (compare_versions p.installed p.served))
      then rest
      else record {
        kind = plugin;
        name = p.name;
        current = p.installed;
        latest = p.served;
        required = false;
      }
        ∷ rest

  -- the third question
  unfoldable pub check_plugins : Option (List Plugin × Bool) → Report
  unfolding plugin_items
  check_plugins none = nothing
  check_plugins (some (ps, failed)) = record {
    items = plugin_items ps;
    unknown = if failed then plugin ∷ [] else [];
  }

  -- `Check(s)`
  unfoldable pub check : Sources → Report
  unfolding check_client check_sdk check_plugins
  check s = and_then (check_client s) (and_then (check_sdk s) (check_plugins s.plugins))

  -- `Alpha(clientVersion)`
  unfoldable pub alpha : Str → Bool
  alpha version = not (v.is_valid version) || str_eq (v.major version) (codes "v0")

-- `Required()` and `Available()`
unfoldable pub filter_required : Bool → List Item → List Item
filter_required want [] = []
filter_required true (i ∷ is) =
    let rest = filter_required true is in if i.required then i ∷ rest else rest
filter_required false (i ∷ is) =
    let rest = filter_required false is in if i.required then rest else i ∷ rest
