-- ===== src/LocalTarget.antt =====
-- internal/localtarget/localtarget.go, with the connection names of internal/codegen/codegen.go: the
-- DSN of a store on this machine. Names are ASCII. What `docker compose ps` prints is given decoded;
-- the port that `url.Parse` reads in a DSN is the parameter `url_port`.
mod Tests
pub mod Engines
pub mod Live
use w17ctl.Base.{
  ℕ, zero, suc, ◌+◌, ◌-◌, Str, ℤ, pos, negsuc, int_eq, codes, str_eq, has_suffix, cut, itoa, atoi,
  leb, ◌==◌, Bool, true, false, not, ◌||◌, ◌&&◌, Option, none, some, List, [], ◌∷◌, ◌++◌, is_nil,
  if◌then◌else◌,
}
use w17ctl.Base.Assoc.{get}
use w17ctl.Registry.{Project}

abbrev pub postgres : Str
postgres = codes "postgres"

abbrev pub mysql : Str
mysql = codes "mysql"

abbrev pub redis : Str
redis = codes "redis"

abbrev pub engines : List Str
engines = postgres ∷ mysql ∷ redis ∷ []

unfoldable pub suffix_in : List Str → Str → Option Str
suffix_in [] name = none
suffix_in (s ∷ ss) name =
    let rest = suffix_in ss name in if has_suffix name (codes "-" ++ s) then some s else rest

-- `DialectFromConnectionName`
unfoldable pub dialect_from_connection_name : Str → Option Str
unfolding suffix_in
dialect_from_connection_name name = suffix_in engines name

-- `ConnectionDomain`
unfoldable pub connection_domain : Str → Str
connection_domain name =
    let (before, _, found) = cut name b'-' in if found && not (is_nil before) then before else name

-- the ASCII part of `strings.ToUpper`, with `-` and `.` as `_`
unfoldable pub slot_byte : ℕ → ℕ
slot_byte c =
    if leb b'a' c && leb c b'z'
    then c - 32
    else if c == b'-'
    then b'_'
    else if c == b'.'
    then b'_'
    else c

unfoldable pub slot_bytes : Str → Str
unfolding slot_byte
slot_bytes [] = []
slot_bytes (c ∷ s) = slot_byte c ∷ slot_bytes s

-- `HostPortSlot`
unfoldable pub host_port_slot : Str → Str
unfolding slot_bytes
host_port_slot name = codes "W17_" ++ slot_bytes name ++ codes "_HOST_PORT"

abbrev credentials : Str → Str → ℤ → Str
credentials scheme domain port =
    scheme
    ++ codes "://"
    ++ domain
    ++ codes ":"
    ++ domain
    ++ codes "@localhost:"
    ++ itoa port
    ++ codes "/"
    ++ domain

-- `DSN(dialect, domain, port)`
unfoldable pub dsn : Str → Str → ℤ → Str
dsn dialect domain port =
    if str_eq dialect postgres
    then credentials postgres domain port ++ codes "?sslmode=disable"
    else if str_eq dialect mysql
    then credentials mysql domain port
    else if str_eq dialect redis
    then codes "redis://localhost:" ++ itoa port ++ codes "/0"
    else []

-- `EnginePort(dialect)`
unfoldable pub engine_port : Str → Option ℕ
engine_port dialect =
    if str_eq dialect postgres
    then some 5432
    else if str_eq dialect mysql
    then some 3306
    else if str_eq dialect redis
    then some 6379
    else none

abbrev listens : Option ℕ → ℕ → Bool
listens none port = false
listens (some p) port = p == port

unfoldable pub engine_in : List Str → ℕ → Option Str
unfolding engine_port
engine_in [] port = none
engine_in (d ∷ ds) port =
    let rest = engine_in ds port in if listens (engine_port d) port then some d else rest

-- `DialectByEnginePort(containerPort)`
unfoldable pub dialect_by_engine_port : ℕ → Option Str
unfolding engine_in
dialect_by_engine_port port = engine_in engines port

pub data SkipReason : Type 0 where
  no_dialect : SkipReason
  not_published : SkipReason
  no_localhost_form : Str → SkipReason
  compose_publishes_none : SkipReason

-- A DSN, or why there is none.
pub data Resolved : Type 0 where
  found : Str → Resolved
  skipped : SkipReason → Resolved

abbrev pub or_zero : Option ℤ → ℤ
or_zero none = pos 0
or_zero (some p) = p

abbrev pub remembered_port : Option Project → Str → ℤ
remembered_port none name = pos 0
remembered_port (some p) name = or_zero (get p.ports (host_port_slot name))

abbrev pub checked_dsn : Str → Str → Resolved
checked_dsn dialect d = if str_eq d [] then skipped (no_localhost_form dialect) else found d

abbrev pub dsn_at : Str → ℤ → Option Str → Resolved
dsn_at name port none = skipped no_dialect
dsn_at name port (some dialect) =
    if int_eq port (pos 0)
    then skipped not_published
    else checked_dsn dialect (dsn dialect (connection_domain name) port)

-- `ResolveDSN(connName, p)`
unfoldable pub resolve_dsn : Str → Option Project → Resolved
unfolding dialect_from_connection_name host_port_slot dsn connection_domain
resolve_dsn name p = dsn_at name (remembered_port p name) (dialect_from_connection_name name)

abbrev pub dsn_of : Str → ℤ → Option Str → Str
dsn_of name port none = []
dsn_of name port (some dialect) = dsn dialect (connection_domain name) port

-- `DSNFor(connName, port)`
unfoldable pub dsn_for : Str → ℤ → Str
unfolding dialect_from_connection_name dsn connection_domain
dsn_for name port = dsn_of name port (dialect_from_connection_name name)

-- `psPublisher`, and the entries of `docker compose ps`
pub record Publisher : Type 0 where
  pub service : Str
  pub target : ℤ
  pub published : ℤ

abbrev is_positive : ℤ → Bool
is_positive (pos zero) = false
is_positive (pos (suc n)) = true
is_positive (negsuc n) = false

-- `published[service][target]`, zero where it is missing; the last entry of `PublishedPorts` wins
unfoldable pub published_at : List Publisher → Str → ℤ → ℤ → ℤ
published_at [] service target so_far = so_far
published_at (p ∷ ps) service target so_far = published_at ps service target (
    if is_positive p.published
      && not (str_eq p.service [])
      && str_eq p.service service
      && int_eq p.target target
    then p.published
    else so_far)

-- A live port, or why there is none.
pub data LivePort : Type 0 where
  live : ℤ → LivePort
  missing : SkipReason → LivePort

abbrev pub published_live : ℤ → LivePort
published_live port = if int_eq port (pos 0) then missing compose_publishes_none else live port

abbrev pub engine_live : List Publisher → Str → Str → Option ℕ → LivePort
engine_live ps name dialect none = missing (no_localhost_form dialect)
engine_live ps name dialect (some engine) =
    published_live (published_at ps name (pos engine) (pos 0))

abbrev pub dialect_live : List Publisher → Str → Option Str → LivePort
dialect_live ps name none = missing no_dialect
dialect_live ps name (some dialect) = engine_live ps name dialect (engine_port dialect)

-- `livePort(connName, published)`
unfoldable pub live_port : List Publisher → Str → LivePort
unfolding published_at engine_port dialect_from_connection_name
live_port ps name = dialect_live ps name (dialect_from_connection_name name)

abbrev port_number : Option ℤ → ℤ
port_number none = pos 0
port_number (some n) = n

-- `PortOf(dsn)`: a DSN that cannot be parsed has no port
unfoldable pub port_of : (Str → Option Str) → Str → ℤ
port_of url_port d = elim (url_port d) [ none ↦ pos 0 | some p ↦ port_number (atoi p) ]

-- The note of a corrected port: what is published and what was remembered.
abbrev pub Answer : Type 0
Answer = Resolved × Option (ℤ × ℤ)

abbrev pub unremembered : SkipReason → Str → Answer
unremembered reason d = if str_eq d [] then (skipped reason, none) else (found d, none)

abbrev pub corrected : Str → Str → ℤ → ℤ → Answer
corrected name d was port =
    if int_eq was port then (found d, none) else (found (dsn_for name port), some (port, was))

abbrev pub compared : (Str → Option Str) → Str → Resolved → ℤ → Answer
compared url_port name (found d) port = corrected name d (port_of url_port d) port
compared url_port name (skipped r) port = unremembered r (dsn_for name port)

abbrev pub against : (Str → Option Str) → Str → Resolved → LivePort → Answer
against url_port name remembered (missing r) = (skipped r, none)
against url_port name remembered (live port) = compared url_port name remembered port

-- `ResolveLive(connName, p, published, asked)`; not asked is `none`
unfoldable pub resolve_live :
    (Str → Option Str) → Str → Option Project → Option (List Publisher) → Answer
unfolding resolve_dsn live_port dsn_for port_of
resolve_live url_port name p none = (resolve_dsn name p, none)
resolve_live url_port name p (some ps) =
    against url_port name (resolve_dsn name p) (live_port ps name)
