-- ===== src/ConsoleAccess/Request.antt =====
-- internal/core/orgresolve.go: the organization that a call names. The console's answer to
-- `ListMyOrgs` is a parameter; the process's listings are state.
use w17ctl.Base.{
  Str, codes, str_eq, Bool, true, false, not, ◌||◌, ◌&&◌, Option, none, some, List, [], ◌∷◌, ◌++◌,
  if◌then◌else◌,
}
use w17ctl.Base.Assoc.{Map, get, put}
use w17ctl.Credentials.{Org, Instance, Store}
use w17ctl.ConsoleAccess.{
  Net, Env, normalize_console_addr, same_console, auth_token, instance_for, org_slug_for, slug_of,
}

-- the codes of gRPC that the code tells apart
pub data Code : Type 0 where
  unavailable : Code
  deadline_exceeded : Code
  canceled : Code
  unknown : Code
  permission_denied : Code
  failed_precondition : Code
  unauthenticated : Code
  other : Code

-- An error of a call: whether it carries a status, its code, and whether its details hold
-- `ORGANIZATION_REQUIRED`. `status.Code` of an error without a status is `unknown`.
pub record Refusal : Type 0 where
  pub has_status : Bool
  pub code : Code
  pub wants_organization : Bool

unfoldable pub status_code : Refusal → Code
status_code e = if e.has_status then e.code else Code.unknown

unfoldable pub code_needs : Code → Bool → Bool
code_needs Code.permission_denied w = true
code_needs Code.failed_precondition w = w
code_needs Code.unavailable w = false
code_needs Code.deadline_exceeded w = false
code_needs Code.canceled w = false
code_needs Code.unknown w = false
code_needs Code.unauthenticated w = false
code_needs Code.other w = false

-- `needsOrganization`
unfoldable pub needs_organization : Option Refusal → Bool
unfolding code_needs
needs_organization none = false
needs_organization (some e) = e.has_status && code_needs e.code e.wants_organization

-- an answer of `listMyOrgsIn`
abbrev pub Answer : Type 0
Answer = List Org × Option Refusal

-- `orgListing`
pub record Listing : Type 0 where
  pub orgs : List Org
  pub error : Option Refusal
  pub key_refused : Bool

unfoldable pub is_unauthenticated : Option Refusal → Bool
unfolding status_code
is_unauthenticated none = false
is_unauthenticated (some e) = elim (status_code e) [ Code.unauthenticated ↦ true | _ ↦ false ]

unfoldable pub is_passing : Option Refusal → Bool
unfolding status_code
is_passing none = false
is_passing (some e) = elim (status_code e) [
  | Code.unavailable ↦ true
  | Code.deadline_exceeded ↦ true
  | Code.canceled ↦ true
  | Code.unknown ↦ true
  | _ ↦ false
]

-- the two attempts of `listOrgsOnce`: with no organization named, and under the lock's slug
unfoldable pub attempt : (Str → Answer) → Str → Listing
unfolding needs_organization is_unauthenticated
attempt ask key_slug =
    let (orgs, error) = ask [] in
    let (again, refused) = ask key_slug in
    if needs_organization error && not (str_eq key_slug [])
    then record {
      orgs = again;
      error = refused;
      key_refused = needs_organization refused || is_unauthenticated refused;
    }
    else record { orgs = orgs; error = error; key_refused = false }

-- the key of `orgListings`
unfoldable pub listing_key : Net → Str → Str → Str
listing_key net addr key_slug = normalize_console_addr net addr ++ codes "|" ++ key_slug

unfoldable pub list_orgs_at :
    Option Listing → (Str → Answer) → Map Listing → Str → Str → Map Listing × Listing
unfolding attempt is_passing
list_orgs_at (some l) ask listings key key_slug = (listings, l)
list_orgs_at none ask listings key key_slug =
    let l = attempt ask key_slug in
    if is_passing l.error then (listings, l) else (put listings key l, l)

-- `listOrgsOnce(addr, token, keySlug)`, `ask` being the console at `addr` under the token
unfoldable pub list_orgs_once :
    Net → (Str → Answer) → Map Listing → Str → Str → Map Listing × Listing
unfolding listing_key list_orgs_at
list_orgs_once net ask listings addr key_slug =
    let key = listing_key net addr key_slug in
    list_orgs_at (get listings key) ask listings key key_slug

-- `lockOrg`, without the path that messages name
pub record LockOrg : Type 0 where
  pub id : Str
  pub slug : Str
  pub url : Str

-- `forConsole(addr)`
unfoldable pub for_console : Net → LockOrg → Str → Bool
for_console net lo addr = not (str_eq lo.url []) && same_console net lo.url addr

-- What a call names: a slug, where the empty one is no organization; or nothing is sent, since the
-- console could not be asked, or since the account is no member of the lock's organization.
pub data Named : Type 0 where
  slug : Str → Named
  listing_failed : Refusal → Named
  not_member : Named

-- the loop over the listed organizations
unfoldable pub slug_in : List Org → Str → Option Str
slug_in [] id = none
slug_in (o ∷ os) id = let rest = slug_in os id in if str_eq o.id id then some o.slug else rest

abbrev pub member : Option Str → Named
member none = Named.not_member
member (some s) = Named.slug s

unfoldable pub listed : Listing → Str → Named
unfolding slug_in
listed l id = member (slug_in l.orgs id)

abbrev pub judged : Option Refusal → Bool → Named → Named
judged none refused found = found
judged (some e) refused found = if refused then found else Named.listing_failed e

-- what follows `listOrgsOnce`
unfoldable pub answered : Listing → Str → Named
unfolding listed
answered l id = judged l.error l.key_refused (listed l id)

abbrev pub cached : Option Instance → Str → Option Str
cached none id = none
cached (some i) id = slug_of i.orgs id

unfoldable pub of_lock :
    Option Str
    → Net
    → Env
    → Option Store
    → (Str → Str → Answer)
    → Map Listing
    → LockOrg
    → Str
    → Map Listing × Named
unfolding list_orgs_once for_console answered
of_lock (some s) net env st ask listings lo addr = (listings, Named.slug s)
of_lock none net env st ask listings lo addr =
    let token = auth_token net env st addr in
    let (after, l) = list_orgs_once net (ask token) listings addr lo.slug in
    if not (for_console net lo addr)
    then (listings, Named.slug (org_slug_for net st addr))
    else if str_eq token []
    then (listings, Named.slug [])
    else (after, answered l lo.id)

-- `orgSlugForRequest(addr)`, under `ActInOrg` and the lock that decides
unfoldable pub org_slug_for_request :
    Net
    → Env
    → Option Store
    → (Str → Str → Answer)
    → Map Listing
    → Option Str
    → LockOrg
    → Str
    → Map Listing × Named
org_slug_for_request net env st ask listings (some s) lo addr =
    (listings, Named.slug (if str_eq s [] then org_slug_for net st addr else s))
org_slug_for_request net env st ask listings none lo addr =
    let found = of_lock (cached (instance_for net st addr) lo.id) net env st ask listings lo addr in
    if str_eq lo.id [] then (listings, Named.slug (org_slug_for net st addr)) else found
