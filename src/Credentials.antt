-- ===== src/Credentials.antt =====
-- internal/authstore/authstore.go: `~/.w17/auth.yaml` in memory. The instances are the map's pointers,
-- of which `normalize` drops the nil ones.
mod Tests
pub mod Default
pub mod Prune
use w17ctl.Base.{
  ℕ, suc, Str, codes, str_eq, has_prefix, drop, Bool, true, false, not, ◌||◌, ◌&&◌, Option, none,
  some, List, [], ◌∷◌, ◌==◌, ◌+◌, is_some, if◌then◌else◌, ℤ, pos, int_eq,
}
use w17ctl.Base.Assoc.{Map, get, put, delete, keys}

pub record Org : Type 0 where
  pub id : Str
  pub slug : Str
  pub name : Str
  pub kind : Str
  pub role : Str

pub record User : Type 0 where
  pub id : Str
  pub email : Str

pub record Instance : Type 0 where
  pub url : Str
  pub token : Str
  pub device : Str
  pub user : Option User
  pub orgs : List (Option Org)
  pub default_org : Str
  pub expires_at : Str

pub record Store : Type 0 where
  pub version : ℤ
  pub default_instance : Str
  pub instances : Map (Option Instance)
  pub oauth_clients : Map Str

abbrev pub or_empty : Option Str → Str
or_empty none = []
or_empty (some s) = s

-- `OAuthClientID` and `SetOAuthClientID`
unfoldable pub oauth_client_id : Store → Str → Str
oauth_client_id s issuer = or_empty (get s.oauth_clients issuer)

unfoldable pub set_oauth_client_id : Store → Str → Str → Store
set_oauth_client_id s issuer client =
    if str_eq client []
    then record s { oauth_clients = delete s.oauth_clients issuer }
    else record s { oauth_clients = put s.oauth_clients issuer client }

-- the loop of `normalize`: nil entries go, and an empty URL becomes the key
unfoldable pub fill : Map (Option Instance) → Map (Option Instance)
fill [] = []
fill ((k, none) ∷ m) = fill m
fill ((k, some i) ∷ m) =
    let rest = fill m in
    if str_eq i.url [] then (k, some (record i { url = k })) ∷ rest else (k, some i) ∷ rest

-- `normalize`
unfoldable pub normalize_store : Store → Store
unfolding fill
normalize_store s = record s {
  version = if int_eq s.version (pos 0) then pos 1 else s.version;
  instances = fill s.instances;
}

abbrev pub flat : Option (Option Instance) → Option Instance
flat none = none
flat (some i) = i

-- `Instance(url)`
unfoldable pub instance_at : Store → Str → Option Instance
instance_at s url = flat (get s.instances url)

-- `SetInstance(inst)`
unfoldable pub set_instance : Store → Option Instance → Store
unfolding normalize_store
set_instance s none = s
set_instance s (some i) =
    let n = normalize_store s in
    if str_eq i.url [] then s else record n {
      instances = put n.instances i.url (some i);
      default_instance = if str_eq n.default_instance [] then i.url else n.default_instance;
    }

-- `RemoveInstance(url)`
unfoldable pub remove_instance : Store → Str → Store
remove_instance s url = record s {
  instances = delete s.instances url;
  default_instance = if str_eq s.default_instance url then [] else s.default_instance;
}

-- `ActiveInstance()`
unfoldable pub active_instance : Store → Option Instance
unfolding instance_at
active_instance s = if str_eq s.default_instance [] then none else instance_at s s.default_instance

-- `SetDefaultInstance(url)`
unfoldable pub set_default_instance : Store → Str → Store × Bool
unfolding instance_at
set_default_instance s url =
    if is_some (instance_at s url) then (record s { default_instance = url }, true) else (s, false)

abbrev pub token_of : Option Instance → Str
token_of none = []
token_of (some i) = i.token

-- `TokenFor(url)`
unfoldable pub token_for : Store → Str → Str
unfolding instance_at
token_for s url = token_of (instance_at s url)

unfoldable pub find_org : List (Option Org) → Str → Option Org
find_org [] slug = none
find_org (none ∷ os) slug = find_org os slug
find_org (some o ∷ os) slug =
    let rest = find_org os slug in if str_eq o.slug slug then some o else rest

-- `Org(slug)`
unfoldable pub org : Option Instance → Str → Option Org
unfolding find_org
org none slug = none
org (some i) slug = find_org i.orgs slug

-- what stands behind the first `://`, where there is one
unfoldable pub behind_scheme : Str → Option Str
behind_scheme [] = none
behind_scheme (c ∷ s) =
    let rest = behind_scheme s in
    if has_prefix (c ∷ s) (codes "://") then some (drop 3 (c ∷ s)) else rest

-- `StripScheme`
unfoldable pub strip_scheme : Str → Str
unfolding behind_scheme
strip_scheme url = elim (behind_scheme url) [ none ↦ url | some rest ↦ rest ]

-- `IsLoopbackURL`
unfoldable pub is_loopback_url : Str → Bool
unfolding strip_scheme
is_loopback_url url =
    let h = strip_scheme url in
    has_prefix h (codes "localhost:")
    || has_prefix h (codes "127.0.0.1:")
    || has_prefix h (codes "[::1]:")

-- one URL of the loop: whether it stays
unfoldable pub stays : Str → (Str → Bool) → Str → Bool
unfolding is_loopback_url
stays keep listening url =
    str_eq url keep || not (is_loopback_url url) || listening (strip_scheme url)

unfoldable pub prune_urls : Str → (Str → Bool) → List Str → Store → Store × ℕ
unfolding stays remove_instance
prune_urls keep listening [] s = (s, 0)
prune_urls keep listening (u ∷ us) s =
    let passed = prune_urls keep listening us s in
    let (t, n) = prune_urls keep listening us (remove_instance s u) in
    if stays keep listening u then passed else (t, suc n)

-- `PruneDeadLoopbackInstances(keep, listening)`; without a probe nothing goes
unfoldable pub prune_dead : Store → Str → Option (Str → Bool) → Store × ℕ
unfolding prune_urls normalize_store
prune_dead s keep none = (s, 0)
prune_dead s keep (some listening) =
    let n = normalize_store s in prune_urls keep listening (keys n.instances) n
