-- ===== src/Snapstore.antt =====
-- internal/snapstore/snapstore.go and dumpcheck.go: how the dumps of a set of stores are written and
-- read back. A set's directory is a map from file names to contents; what the stores and the
-- operating system answer are parameters.
mod Tests
pub mod Keys
pub mod Evict
pub mod Saving
pub mod Watch
pub mod Named
pub mod Savepoints
pub mod RoundTrip
use w17ctl.Base.{
  ℕ, ◌-◌, Str, codes, contains, str_eq, has_prefix, drop, ltb, length, is_nil, Bool, true, false,
  not, ◌&&◌, ◌||◌, Option, none, some, List, [], ◌∷◌, ◌++◌, if◌then◌else◌,
}
use w17ctl.Base.Assoc.{Map, get, put, delete}

-- `objectMarkers`
abbrev pub object_markers : List Str
object_markers =
    codes "CREATE TABLE"
    ∷ codes "CREATE SEQUENCE"
    ∷ codes "CREATE TYPE"
    ∷ codes "CREATE VIEW"
    ∷ codes "CREATE MATERIALIZED VIEW"
    ∷ codes "CREATE INDEX"
    ∷ codes "CREATE UNIQUE INDEX"
    ∷ codes "CREATE FUNCTION"
    ∷ codes "CREATE FOREIGN TABLE"
    ∷ []

-- `longestMarker`
unfoldable pub longest : List Str → ℕ
longest [] = 0
longest (m ∷ ms) = let n = longest ms in if ltb n (length m) then length m else n

unfoldable pub any_marker : Str → List Str → Bool
unfolding contains
any_marker hay [] = false
any_marker hay (m ∷ ms) = let rest = any_marker hay ms in contains hay m || rest

-- `objectWatch` beside its writer
pub record ObjectWatch : Type 0 where
  tail : Str
  seen : Bool

unfoldable pub keep_tail : Str → Str
unfolding longest
keep_tail hay = drop (length hay - (longest object_markers - 1)) hay

unfoldable pub scan : Str → ObjectWatch
unfolding any_marker keep_tail
scan hay =
    if any_marker hay object_markers
    then record { tail = []; seen = true }
    else record { tail = keep_tail hay; seen = false }

-- `objectWatch.Write(p)`
unfoldable pub write : ObjectWatch → Str → ObjectWatch
unfolding scan
write o p = if o.seen then o else scan (o.tail ++ p)

unfoldable pub write_all : ObjectWatch → List Str → ObjectWatch
unfolding write
write_all o [] = o
write_all o (p ∷ ps) = write_all (write o p) ps

-- `watch.sawObject()` after a dump
unfoldable pub saw_object : List Str → Bool
unfolding write_all
saw_object chunks = (write_all (record { tail = []; seen = false }) chunks).seen

unfoldable pub concat : List Str → Str
concat [] = []
concat (p ∷ ps) = p ++ concat ps

-- What a Snapshotter says of the objects of its store.
pub data Counter : Type 0 where
  no_counter : Counter
  counter_failed : Counter
  holds : List Str → Counter

-- A connection: the fields of `Conn`, with what its Snapshotter's `Dump` writes, piece by piece, and
-- whether it fails, and what its store holds.
pub record Conn : Type 0 where
  pub name : Str
  pub ext : Str
  pub fallback_note : Str
  pub require_objects : Bool
  pub chunks : List Str
  pub dump_error : Option Str
  pub counter : Counter

-- `Conn.file()`
unfoldable pub file : Conn → Str
file c = c.name ++ codes "." ++ c.ext

-- The name `os.CreateTemp` finds, the errors of creating it, closing and renaming, and whether a
-- temporary file can be removed.
pub record Os : Type 0 where
  pub temp_name : Str → Str
  pub temp_error : Str → Option Str
  pub close_error : Str → Option Str
  pub rename_error : Str → Option Str
  pub removes : Str → Bool

pub data SaveError : Type 0 where
  temp : Str → SaveError
  dump : Str → Str → SaveError
  close : Str → SaveError
  misdirected : List Str → SaveError
  unanswered : SaveError
  rename : Str → SaveError

-- `storeObjects`
unfoldable pub store_objects : Counter → Option (List Str)
store_objects no_counter = none
store_objects counter_failed = none
store_objects (holds objects) = some objects

abbrev pub judged : Option (List Str) → Option SaveError
judged (some []) = none
judged (some (o ∷ os)) = some (misdirected (o ∷ os))
judged none = some unanswered

-- the refusal of a dump that carries nothing
unfoldable pub refusal : Conn → Option SaveError
unfolding saw_object store_objects
refusal c =
    if c.require_objects && not (saw_object c.chunks)
    then judged (store_objects c.counter)
    else none

-- the first error of the write, the close, the check and the rename, in this order
unfoldable pub save_error : Os → Conn → Option SaveError
unfolding refusal
save_error os c = elim c.dump_error [
  | some e ↦ some (dump e c.fallback_note)
  | none ↦ elim (os.close_error (file c)) [
    | some e ↦ some (close e)
    | none ↦ elim (refusal c) [
      | some e ↦ some e
      | none ↦ elim (os.rename_error (file c)) [ some e ↦ some (rename e) | none ↦ none ]
    ]
  ]
]

abbrev pub Dir : Type 0
Dir = Map Str

unfoldable pub remove : Os → Str → Dir → Dir
remove os tmp d = if os.removes tmp then delete d tmp else d

-- The directory once the temporary file is written: cleaned up after an error, or with the dump
-- renamed into place.
unfoldable pub settle : Os → Conn → Dir → Option SaveError → Dir × Option SaveError
unfolding remove file concat
settle os c d (some e) = (remove os (os.temp_name (file c)) d, some e)
settle os c d none = (put (delete d (os.temp_name (file c))) (file c) (concat c.chunks), none)

abbrev pub Saved : Type 0
Saved = Dir × Option SaveError

-- a temporary file that cannot be created, or one that is written and settled
unfoldable pub written : Os → Conn → Dir → Option Str → Saved
unfolding settle save_error
written os c d (some e) = (d, some (temp e))
written os c d none =
    settle os c (put d (os.temp_name (file c)) (concat c.chunks)) (save_error os c)

-- `saveOneTo`
unfoldable pub save_one_to : Os → Conn → Dir → Saved
unfolding written
save_one_to os c d = written os c d (os.temp_error (file c))

-- `saveConns`, once the directory is there: the first error stops it
unfoldable pub save_conns : Os → List Conn → Dir → Saved
unfolding save_one_to
save_conns os [] d = (d, none)
save_conns os (c ∷ cs) d =
    let (after, e) = save_one_to os c d in
    elim e [ some x ↦ (after, some x) | none ↦ save_conns os cs after ]

pub data LoadError : Type 0 where
  missing : Str → LoadError
  restore : Str → Str → LoadError

-- `loadConns`: what each store is given, in order, and the error that stopped it. `restores` is the
-- error of a store's `Restore`.
unfoldable pub load_conns :
    (Str → Str → Option Str) → Dir → List Conn → List (Str × Str) × Option LoadError
unfolding file
load_conns restores d [] = ([], none)
load_conns restores d (c ∷ cs) =
    let (given, e) = load_conns restores d cs in
    elim (get d (file c)) [
      | none ↦ ([], some (missing c.name))
      | some body ↦ elim (restores c.name body) [
        | some x ↦ ((c.name, body) ∷ [], some (restore c.name x))
        | none ↦ ((c.name, body) ∷ given, e)
      ]
    ]
