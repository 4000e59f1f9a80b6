-- ===== src/ConsoleAccess/Tests.antt =====
-- A token for one console, dialed under two spellings of its address, and a lock of an organization.
use w17ctl.Base.{
  Str, codes, str_eq, has_prefix, drop, trim_prefix, trim_suffix, rev, true, false, none, some, [],
  ◌∷◌, ◌≡◌, refl, ◌⊎◌, pos,
}
use w17ctl.Credentials.{Org, Instance, Store}
use w17ctl.ConsoleAccess.{
  Net, Env, normalize_console_addr, split_console_scheme, cut_scheme, same_console, env_bound,
  env_token_for, instance_for, auth_token,
}
use w17ctl.ConsoleAccess.Bound.{IsHeldFor, auth_token-IsBound}
use w17ctl.ConsoleAccess.Request.{
  Answer, LockOrg, for_console, list_orgs_once, org_slug_for_request,
}
use w17ctl.ConsoleAccess.Orgs.{IsOfLock, orgs_of, org_slug_for_request-IsOfLock}

abbrev net : Net
net = record {
  split_host_port = λ t. none;
  is_loopback_ip = λ h. false;
  join_host_port = λ h p. h;
  to_lower = λ h. h;
}

abbrev env : Env
env = record { token = codes "t"; console_addr = codes "api"; default_addr = [] }

abbrev no_logins : Store
no_logins = record { version = pos 1; default_instance = []; instances = []; oauth_clients = [] }

presented : auth_token net env (some no_logins) (codes "grpcs://api") ≡ codes "t"
unfolding auth_token env_token_for env_bound normalize_console_addr split_console_scheme cut_scheme
    same_console str_eq has_prefix drop trim_prefix trim_suffix rev
presented = refl

auth_token-IsBound_example :
    ((codes "t" ≡ env.token)
      × (str_eq (env_bound env) [] ≡ false)
      × (normalize_console_addr net (codes "grpcs://api")
          ≡ normalize_console_addr net (env_bound env)))
    ⊎ ((i : Instance) × (codes "t" ≡ i.token) × IsHeldFor net no_logins (codes "grpcs://api") i)
unfolding str_eq
auth_token-IsBound_example =
    auth_token-IsBound net env no_logins (codes "grpcs://api") (codes "t") refl refl presented

abbrev team : Org
team = record { id = codes "o1"; slug = codes "team"; name = []; kind = []; role = [] }

abbrev lock : LockOrg
lock = record { id = codes "o1"; slug = codes "team"; url = codes "https://api" }

abbrev answer : Str → Str → Answer
answer token org = (team ∷ [], none)

locked : for_console net lock (codes "api") ≡ true
unfolding for_console normalize_console_addr split_console_scheme cut_scheme same_console str_eq
    has_prefix drop trim_prefix trim_suffix rev
locked = refl

org_slug_for_request-IsOfLock_example :
    IsOfLock
      (orgs_of (instance_for net (some no_logins) (codes "api")))
      (list_orgs_once net
        (answer (auth_token net env (some no_logins) (codes "api")))
        []
        (codes "api")
        (codes "team")).1.orgs
      (auth_token net env (some no_logins) (codes "api"))
      (codes "o1")
      (org_slug_for_request net env (some no_logins) answer [] none lock (codes "api")).1
unfolding str_eq
org_slug_for_request-IsOfLock_example =
    org_slug_for_request-IsOfLock net env (some no_logins) answer [] lock (codes "api") refl locked
