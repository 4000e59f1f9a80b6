-- ===== src/Snapstore/Named.antt =====
-- internal/snapstore/snapstore.go: named savepoints, and cmd/db/cmd.go: the guard of `db snapshot
-- activate`. A savepoint is a set of dumps with two texts that are pinned beside it; it is found by
-- the keys of its initiative and of its name.
use w17ctl.Base.{
  Str, codes, str_eq, trim_space, Bool, false, not, ◌||◌, ◌&&◌, Option, none, some, List, [], ◌++◌,
  is_some, if◌then◌else◌, ◌⊎◌, inl, inr,
}
use w17ctl.Base.Assoc.{Map, get, put, delete}
use w17ctl.Snapstore.{Conn, Os, Dir, SaveError, LoadError, Saved, save_conns, load_conns}
use w17ctl.Snapstore.Keys.{branch_key}

-- A pinned file: not there, its text, or the error of reading it.
pub data PinFile : Type 0 where
  missing : PinFile
  text : Str → PinFile
  broken : Str → PinFile

-- The directory of a savepoint: its dumps, where its `db` directory is there, and the pinned files.
pub record Savepoint : Type 0 where
  pub dumps : Option Dir
  pub schema : PinFile
  pub undoes : PinFile

-- the savepoints by their path below the store's directory
abbrev pub Savepoints : Type 0
Savepoints = Map Savepoint

abbrev pub fresh : Savepoint
fresh = record { dumps = none; schema = missing; undoes = missing }

abbrev pub under : Option Str → Option Str → Option Str
under none nk = none
under (some ik) none = none
under (some ik) (some nk) = some (ik ++ codes "/snapshots/" ++ nk)

-- `namedRoot(initiative, name)`, below the store's directory
unfoldable pub named_root : Str → Str → Option Str
unfolding branch_key
named_root initiative name = under (branch_key initiative) (branch_key name)

abbrev pub savepoint_at : Savepoints → Str → Savepoint
savepoint_at t root = elim (get t root) [ none ↦ fresh | some p ↦ p ]

abbrev pub dumps_of : Savepoint → Dir
dumps_of p = elim p.dumps [ none ↦ [] | some d ↦ d ]

abbrev pub has_at : Savepoints → Option Str → Bool
has_at t none = false
has_at t (some root) = is_some (savepoint_at t root).dumps

-- `HasNamed(initiative, name)`
unfoldable pub has_named : Savepoints → Str → Str → Bool
unfolding named_root
has_named t initiative name = has_at t (named_root initiative name)

pub data NamedError : Type 0 where
  bad_name : NamedError
  no_savepoint : NamedError
  not_saved : SaveError → NamedError
  not_loaded : LoadError → NamedError
  not_pinned : Str → NamedError
  not_read : Str → NamedError

-- Whether the two pins can be written: their errors.
pub record Pins : Type 0 where
  pub undoes_error : Option Str
  pub schema_error : Option Str

-- the pins, once the dumps are written
unfoldable pub pin_schema : Pins → Str → Savepoint → Savepoint × Option NamedError
pin_schema pins hash p = elim pins.schema_error [
  | some e ↦ (p, some (not_pinned e))
  | none ↦ (record p { schema = text (hash ++ codes "\n") }, none)
]

unfoldable pub pin_undoes : Pins → Str → Str → Savepoint → Savepoint × Option NamedError
unfolding pin_schema
pin_undoes pins hash undoes p =
    let pinned = pin_schema pins hash p in
    let after = pin_schema pins hash (record p { undoes = text (undoes ++ codes "\n") }) in
    if str_eq undoes []
    then pinned
    else elim pins.undoes_error [ some e ↦ (p, some (not_pinned e)) | none ↦ after ]

abbrev pub pinned_after : Pins → Str → Str → Savepoint → Saved → Savepoint × Option NamedError
pinned_after pins hash undoes p (d, some e) = (record p { dumps = some d }, some (not_saved e))
pinned_after pins hash undoes p (d, none) =
    pin_undoes pins hash undoes (record p { dumps = some d })

abbrev pub saved_at :
    Os → Pins → Str → Str → List Conn → Savepoints → Option Str → Savepoints × Option NamedError
saved_at os pins hash undoes cs t none = (t, some bad_name)
saved_at os pins hash undoes cs t (some root) =
    let p = savepoint_at t root in
    let (after, e) = pinned_after pins hash undoes p (save_conns os cs (dumps_of p)) in
    (put t root after, e)

-- `SaveNamedUndoing(initiative, name, schemaHash, undoes, conns)`
unfoldable pub save_named_undoing :
    Os → Pins → Savepoints → Str → Str → Str → Str → List Conn → Savepoints × Option NamedError
unfolding named_root
save_named_undoing os pins t initiative name hash undoes cs =
    saved_at os pins hash undoes cs t (named_root initiative name)

-- `SaveNamed(initiative, name, schemaHash, conns)`
unfoldable pub save_named :
    Os → Pins → Savepoints → Str → Str → Str → List Conn → Savepoints × Option NamedError
unfolding save_named_undoing
save_named os pins t initiative name hash cs =
    save_named_undoing os pins t initiative name hash [] cs

-- a pinned file as it is read: one that is not there is no error
abbrev pub read_pin : PinFile → NamedError ⊎ Str
read_pin missing = inr []
read_pin (text s) = inr (trim_space s)
read_pin (broken e) = inl (not_read e)

abbrev pub schema_at : Savepoints → Option Str → NamedError ⊎ Str
schema_at t none = inl bad_name
schema_at t (some root) = read_pin (savepoint_at t root).schema

abbrev pub undoes_at : Savepoints → Option Str → NamedError ⊎ Str
undoes_at t none = inl bad_name
undoes_at t (some root) = read_pin (savepoint_at t root).undoes

-- `NamedSchemaHash(initiative, name)`
unfoldable pub named_schema_hash : Savepoints → Str → Str → NamedError ⊎ Str
unfolding named_root
named_schema_hash t initiative name = schema_at t (named_root initiative name)

-- `NamedUndoesHash(initiative, name)`
unfoldable pub named_undoes_hash : Savepoints → Str → Str → NamedError ⊎ Str
unfolding named_root
named_undoes_hash t initiative name = undoes_at t (named_root initiative name)

abbrev pub loaded : List (Str × Str) × Option LoadError → List (Str × Str) × Option NamedError
loaded (given, none) = (given, none)
loaded (given, some e) = (given, some (not_loaded e))

abbrev pub loaded_at :
    (Str → Str → Option Str)
    → Savepoints
    → List Conn
    → Option Str
    → List (Str × Str) × Option NamedError
loaded_at restores t cs none = ([], some no_savepoint)
loaded_at restores t cs (some root) =
    let given = loaded (load_conns restores (dumps_of (savepoint_at t root)) cs) in
    if has_at t (some root) then given else ([], some no_savepoint)

-- `LoadNamed(initiative, name, conns)`
unfoldable pub load_named :
    (Str → Str → Option Str)
    → Savepoints
    → Str
    → Str
    → List Conn
    → List (Str × Str) × Option NamedError
unfolding named_root
load_named restores t initiative name cs = loaded_at restores t cs (named_root initiative name)

abbrev pub removed_at : Savepoints → Option Str → Savepoints
removed_at t none = t
removed_at t (some root) = delete t root

-- `RemoveNamed(initiative, name)`, where the removal works
unfoldable pub remove_named : Savepoints → Str → Str → Savepoints
unfolding named_root
remove_named t initiative name = removed_at t (named_root initiative name)

-- `isReturnTrip(undoes, current)`
unfoldable pub is_return_trip : Str → Str → Bool
is_return_trip undoes current =
    not (str_eq undoes []) && not (str_eq current []) && str_eq undoes current

-- `schemaGuardBlocks(pinned, current, force)`
unfoldable pub schema_guard_blocks : Str → Str → Bool → Bool
schema_guard_blocks pinned current force =
    if force || str_eq pinned [] || str_eq current [] then false else not (str_eq pinned current)

pub data Refused : Type 0 where
  absent : Refused
  unreadable : NamedError → Refused
  unreachable : Str → Refused
  diverged : Str → Str → Refused
  not_restored : NamedError → Refused

abbrev pub Activated : Type 0
Activated = List (Str × Str) × Option Refused

abbrev pub restored : List (Str × Str) × Option NamedError → Activated
restored (given, none) = (given, none)
restored (given, some e) = (given, some (not_restored e))

-- the text of a reading whose error is ignored
abbrev pub or_nothing : NamedError ⊎ Str → Str
or_nothing (inl e) = []
or_nothing (inr s) = s

-- the guard, once both schemas are known or left unknown
unfoldable pub guarded : Str → Str → Str → Bool → Activated → Activated
unfolding is_return_trip schema_guard_blocks
guarded pinned current undoes force given =
    if is_return_trip undoes current
    then given
    else if schema_guard_blocks pinned current force
    then ([], some (diverged pinned current))
    else given

-- what the guard compares: with force an error leaves the schema unknown
abbrev pub asked {ℓ} : {E : Type ℓ} → E ⊎ Str → Bool → E ⊎ Str
asked (inl e) force = if force then inr [] else inl e
asked (inr c) force = inr c

abbrev pub against : NamedError ⊎ Str → Str ⊎ Str → Str → Bool → Activated → Activated
against (inl e) current undoes force given = ([], some (unreadable e))
against (inr pinned) (inl e) undoes force given = ([], some (unreachable e))
against (inr pinned) (inr current) undoes force given = guarded pinned current undoes force given

-- `db snapshot activate` on this machine's savepoints; the console answers the current schema, or an
-- error
unfoldable pub activate :
    (Str → Str → Option Str) → Savepoints → Str → Str → Str ⊎ Str → Bool → List Conn → Activated
unfolding has_named named_schema_hash named_undoes_hash load_named guarded
activate restores t initiative name current force cs =
    let given = restored (load_named restores t initiative name cs) in
    let pinned = asked (named_schema_hash t initiative name) force in
    let undoes = or_nothing (named_undoes_hash t initiative name) in
    if not (has_named t initiative name)
    then ([], some absent)
    else against pinned (asked current force) undoes force given
