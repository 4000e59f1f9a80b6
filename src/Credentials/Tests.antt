-- ===== src/Credentials/Tests.antt =====
-- A login to a console that is gone, and one that is kept.
use w17ctl.Base.{
  Str, codes, str_eq, pos, false, not, ◌||◌, none, some, [], ◌∷◌, ◌≡◌, refl, inr, if◌then◌else◌,
}
use w17ctl.Base.Assoc.{get}
use w17ctl.Credentials.{Instance, Store, instance_at, normalize_store, prune_dead, is_loopback_url}
use w17ctl.Credentials.Prune.{prune_dead_lem}
use w17ctl.Credentials.Default.{IsDefaultKnown}

abbrev login : Str → Instance
login url = record {
  url = url;
  token = codes "t";
  device = [];
  user = none;
  orgs = [];
  default_org = [];
  expires_at = [];
}

abbrev dead : Str
dead = codes "http://localhost:1"

abbrev logins : Store
logins = record {
  version = pos 1;
  default_instance = dead;
  instances = (dead, some (login dead)) ∷ (codes "api:1", some (login (codes "api:1"))) ∷ [];
  oauth_clients = [];
}

prune_dead_lem_example : instance_at (prune_dead logins [] (some (λ a. false))).0 dead ≡ (
    if str_eq dead [] || not (is_loopback_url dead) || false
    then instance_at (normalize_store logins) dead
    else none)
prune_dead_lem_example = prune_dead_lem logins [] (λ a. false) dead

logins-IsDefaultKnown : IsDefaultKnown logins
unfolding instance_at get str_eq
logins-IsDefaultKnown = inr refl
