-- ===== src/ConsoleAccess.antt =====
-- internal/core: which credential and which organization a call to a console carries: console.go,
-- transport.go (addresses), envtoken.go, auth.go and orgresolve.go. The functions of the package `net`
-- are the record `Net`; the environment and the compiled-in address are the record `Env`.
mod Tests
pub mod Bound
pub mod Request
pub mod Orgs
use w17ctl.Base.{
  Str, codes, str_eq, has_prefix, trim_prefix, trim_suffix, drop, length, Bool, true, false, not,
  ◌||◌, Option, none, some, List, [], ◌∷◌, ◌++◌, is_some, if◌then◌else◌,
}
use w17ctl.Base.Assoc.{Map, get, put}
use w17ctl.Credentials.{Org, Instance, Store, instance_at, active_instance}

-- `net.SplitHostPort`, whether `net.ParseIP` reads a loopback address, `net.JoinHostPort`, and
-- `strings.ToLower`
pub record Net : Type 0 where
  pub split_host_port : Str → Option (Str × Str)
  pub is_loopback_ip : Str → Bool
  pub join_host_port : Str → Str → Str
  pub to_lower : Str → Str

-- `W17_TOKEN`, `W17_CONSOLE_ADDR` and `DefaultConsoleAddr`
pub record Env : Type 0 where
  pub token : Str
  pub console_addr : Str
  pub default_addr : Str

abbrev schemes : List Str
schemes = codes "https" ∷ codes "grpcs" ∷ codes "http" ∷ codes "grpc" ∷ []

unfoldable pub cut_scheme : List Str → Str → Str × Str
cut_scheme [] addr = ([], addr)
cut_scheme (s ∷ ss) addr =
    let rest = cut_scheme ss addr in
    if has_prefix addr (s ++ codes "://") then (s, drop (length (s ++ codes "://")) addr) else rest

-- `splitConsoleScheme`
unfoldable pub split_console_scheme : Str → Str × Str
unfolding cut_scheme
split_console_scheme addr = cut_scheme schemes addr

-- `CheckConsoleAddr`: the address that an error quotes
unfoldable pub check_console_addr : Net → Str → Option Str
unfolding split_console_scheme
check_console_addr net addr =
    let (scheme, target) = split_console_scheme addr in
    if str_eq scheme [] || str_eq target [] || is_some (net.split_host_port target)
    then none
    else some addr

-- `ResolveConsoleAddr`: the address, and the error it comes with; `none` where none is configured
unfoldable pub first_addr : Net → List Str → Option (Str × Option Str)
unfolding check_console_addr
first_addr net [] = none
first_addr net (a ∷ more) =
    let rest = first_addr net more in
    if str_eq a [] then rest else some (a, check_console_addr net a)

unfoldable pub active_url : Option Store → Str
active_url none = []
active_url (some st) = elim (active_instance st) [ none ↦ [] | some i ↦ i.url ]

unfoldable pub resolve_console_addr : Net → Env → Option Store → Str → Option (Str × Option Str)
unfolding first_addr active_url
resolve_console_addr net env st flag =
    first_addr net (flag ∷ env.console_addr ∷ active_url st ∷ env.default_addr ∷ [])

abbrev pub host_and_port : Option (Str × Str) → Str → Str × Str
host_and_port none target = (target, [])
host_and_port (some hp) target = hp

-- `normalizeConsoleAddr`
unfoldable pub normalize_console_addr : Net → Str → Str
unfolding split_console_scheme
normalize_console_addr net addr =
    let target = (split_console_scheme addr).1 in
    let (h, port) = host_and_port (net.split_host_port target) target in
    let lower = net.to_lower (trim_suffix (trim_prefix h (codes "[")) (codes "]")) in
    let host =
      if str_eq lower (codes "localhost") || net.is_loopback_ip lower
      then codes "127.0.0.1"
      else lower in
    if str_eq port [] then host else net.join_host_port host port

-- `normalizeConsoleAddr(a) == normalizeConsoleAddr(b)`
unfoldable pub same_console : Net → Str → Str → Bool
same_console net a b = str_eq (normalize_console_addr net a) (normalize_console_addr net b)

-- the console that the environment's token is bound to, or nothing
unfoldable pub env_bound : Env → Str
env_bound env = if str_eq env.console_addr [] then env.default_addr else env.console_addr

-- `envTokenFor(addr)`
unfoldable pub env_token_for : Net → Env → Str → Str
unfolding env_bound
env_token_for net env addr =
    let bound = env_bound env in
    if str_eq env.token [] || str_eq bound [] || not (same_console net addr bound)
    then []
    else env.token

-- `EnvTokenBinding(addr)`
unfoldable pub env_token_binding : Net → Env → Str → Str × Bool
unfolding env_bound
env_token_binding net env addr =
    let bound = env_bound env in
    if str_eq env.token [] || str_eq bound []
    then ([], false)
    else (bound, same_console net addr bound)

unfoldable pub find_console : Net → Map (Option Instance) → Str → Option Instance
find_console net [] addr = none
find_console net ((k, none) ∷ m) addr = find_console net m addr
find_console net ((k, some i) ∷ m) addr =
    let rest = find_console net m addr in if same_console net k addr then some i else rest

abbrev pub or_else : Option Instance → Option Instance → Option Instance
or_else none b = b
or_else (some i) b = some i

-- `LookupInstance(st, addr)`
unfoldable pub lookup_instance : Net → Store → Str → Option Instance
unfolding find_console
lookup_instance net st addr =
    if str_eq addr []
    then active_instance st
    else or_else (instance_at st addr) (find_console net st.instances addr)

-- `instanceFor(addr)`; no store where loading it failed
unfoldable pub instance_for : Net → Option Store → Str → Option Instance
instance_for net none addr = none
instance_for net (some st) addr = lookup_instance net st addr

abbrev pub token_in : Option Instance → Str
token_in none = []
token_in (some i) = i.token

-- `AuthTokenFn(addr)`
unfoldable pub auth_token : Net → Env → Option Store → Str → Str
auth_token net env st addr =
    let token = env_token_for net env addr in
    if str_eq token [] then token_in (instance_for net st addr) else token

unfoldable pub slug_of : List (Option Org) → Str → Option Str
slug_of [] id = none
slug_of (none ∷ os) id = slug_of os id
slug_of (some o ∷ os) id = let rest = slug_of os id in if str_eq o.id id then some o.slug else rest

abbrev pub slug_or_empty : Option Str → Str
slug_or_empty none = []
slug_or_empty (some s) = s

abbrev pub default_slug : Option Instance → Str
unfolding slug_of
default_slug none = []
default_slug (some i) =
    if str_eq i.default_org [] then [] else slug_or_empty (slug_of i.orgs i.default_org)

-- `OrgSlugFor(addr)`
unfoldable pub org_slug_for : Net → Option Store → Str → Str
org_slug_for net st addr = default_slug (instance_for net st addr)
