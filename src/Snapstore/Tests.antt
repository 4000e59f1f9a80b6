-- ===== src/Snapstore/Tests.antt =====
-- A set of one database with a table and one cache, and the theorems at it.
use w17ctl.Base.{
  contains, codes, str_eq, has_prefix, drop, true, false, none, some, [], ◌∷◌, ◌++◌, map, ◌≡◌, refl,
  arith,
}
use w17ctl.Base.Assoc.{put, delete}
use w17ctl.Snapstore.{
  Conn, Os, Dir, holds, no_counter, file, concat, saw_object, write_all, write, scan, any_marker,
  keep_tail, longest, refusal, save_error, settle, written, save_one_to, save_conns, load_conns,
}
use w17ctl.Snapstore.Saving.{IsWritten, save_one_to-IsWritten}
use w17ctl.Snapstore.RoundTrip.{IsApart, load_conns-save_conns}
use w17ctl.Base.{trim_space, trim_left, rev, inr, Str, str_compare, pos, In, ◌↔◌, has_byte, arith}
use w17ctl.Base.Sort.{sort, insert, sort_strings}
use w17ctl.Base.Assoc.{get, keys}
use w17ctl.Snapstore.{object_markers}
use w17ctl.Snapstore.Watch.{Occurs, saw_object_iff}
use w17ctl.Snapstore.Keys.{
  branch_key, path_escape, path_unescape, is_plain, IsReserved, branch_key_lem,
}
use w17ctl.Snapstore.Evict.{
  Tree, branches, decoded, with_age, victims, drop_all, evict, IsVictim, IsOldest, evict-IsOldest,
  skip,
}
use w17ctl.Snapstore.Named.{
  text, Savepoints, Pins, named_root, pin_undoes, pin_schema, save_named_undoing, save_named,
  load_named, named_schema_hash, named_undoes_hash, has_named, activate, load_named, is_return_trip,
  schema_guard_blocks, guarded,
}
use w17ctl.Snapstore.Savepoints.{
  load_named-save_named_undoing, save_named_undoes, IsAllowed, activate-IsGuarded,
}

-- The marker stands across the two pieces of the dump.
abbrev database : Conn
database = record {
  name = codes "db";
  ext = codes "sql";
  fallback_note = [];
  require_objects = true;
  chunks = codes "-- dump\nCREATE TA" ∷ codes "BLE t ();" ∷ [];
  dump_error = none;
  counter = holds (codes "t" ∷ []);
}

abbrev cache : Conn
cache = record {
  name = codes "kv";
  ext = codes "gob";
  fallback_note = [];
  require_objects = false;
  chunks = codes "gob" ∷ [];
  dump_error = none;
  counter = no_counter;
}

abbrev calm : Os
calm = record {
  temp_name = λ f. codes "." ++ f ++ codes ".tmp-1";
  temp_error = λ f. none;
  close_error = λ f. none;
  rename_error = λ f. none;
  removes = λ f. true;
}

save_one_to-IsWritten_example : IsWritten calm database [] (save_one_to calm database [])
save_one_to-IsWritten_example = save_one_to-IsWritten calm database []

saved_quietly : (save_one_to calm database []).1 ≡ none
unfolding save_one_to written settle save_error refusal saw_object write_all write scan any_marker
    contains keep_tail longest file has_prefix drop
saved_quietly = refl

abbrev set_after : Dir
set_after =
    (codes "db.sql", codes "-- dump\nCREATE TABLE t ();") ∷ (codes "kv.gob", codes "gob") ∷ []

set_saved : save_conns calm (database ∷ cache ∷ []) [] ≡ (set_after, none)
unfolding save_conns save_one_to written settle save_error refusal saw_object write_all write scan
    any_marker contains keep_tail longest file has_prefix drop put delete concat str_eq
set_saved = refl

set-IsApart : IsApart calm (database ∷ cache ∷ [])
unfolding file
set-IsApart = (
  (λ h. absurd (ground arith)),
  (((λ h. absurd (ground arith)), (λ h. absurd (ground arith))), tt),
  ((λ h. absurd (ground arith)), tt, tt),
)

load_conns-save_conns_example :
    load_conns (λ name body. none) set_after (database ∷ cache ∷ [])
    ≡ (map (λ c. (c.name, concat c.chunks)) (database ∷ cache ∷ []), none)
load_conns-save_conns_example =
    load_conns-save_conns calm (database ∷ cache ∷ []) [] set_after set-IsApart set_saved

saw_object_iff_example :
    (saw_object database.chunks ≡ true)
    ↔ ((m : Str) × In m object_markers × Occurs m (concat database.chunks))
saw_object_iff_example = saw_object_iff database.chunks

branch_key_lem_example :
    ((branch_key (codes "feat/x") ≡ none) ↔ IsReserved (codes "feat/x"))
    × ((key : Str)
        → branch_key (codes "feat/x") ≡ some key
        → ¬ (IsReserved key)
          × (has_byte 47 key ≡ false)
          × (path_unescape key ≡ some (codes "feat/x")))
branch_key_lem_example = branch_key_lem (codes "feat/x") (
  ground arith,
  (ground arith, (ground arith, (ground arith, (ground arith, (ground arith, tt))))),
)

-- Three branches, the one in the middle saved last.
abbrev kept_branches : Tree
kept_branches = (codes "a", pos 5) ∷ (codes "b", pos 9) ∷ (codes "c", pos 7) ∷ []

all_removed : (evict (λ b. none) (pos 1) kept_branches).1 ≡ none
unfolding evict drop_all victims branches decoded with_age branch_key path_escape path_unescape
    is_plain has_byte str_eq get keys skip sort insert sort_strings str_compare
all_removed = refl

evict-IsOldest_example :
    let vs = victims 1 kept_branches in
    let r = evict (λ b. none) (pos 1) kept_branches in
    (r.0 ≡ sort_strings (map (λ v. v.branch) vs))
    × ((k : Str) → IsVictim vs k → get r.2 k ≡ none)
    × ((k : Str) → ¬ (IsVictim vs k) → get r.2 k ≡ get kept_branches k)
    × IsOldest 1 (with_age kept_branches (branches kept_branches)) vs
evict-IsOldest_example = evict-IsOldest (λ b. none) 0 kept_branches all_removed

abbrev both_pinned : Pins
both_pinned = record { undoes_error = none; schema_error = none }

set_named :
    (save_named_undoing calm both_pinned []
      (codes "x")
      (codes "s")
      (codes "h1")
      (codes "h2")
      (database ∷ cache ∷ [])).1
    ≡ none
unfolding save_named_undoing named_root branch_key path_escape is_plain has_byte save_conns
    save_one_to written settle save_error refusal saw_object write_all write scan any_marker
    contains keep_tail longest file has_prefix drop put delete concat str_eq pin_undoes pin_schema
    get
set_named = refl

load_named-save_named_undoing_example :
    let after =
      (save_named_undoing calm both_pinned []
        (codes "x")
        (codes "s")
        (codes "h1")
        (codes "h2")
        (database ∷ cache ∷ [])).0 in
    (load_named (λ n body. none) after (codes "x") (codes "s") (database ∷ cache ∷ [])
      ≡ (map (λ c. (c.name, concat c.chunks)) (database ∷ cache ∷ []), none))
    × (named_schema_hash after (codes "x") (codes "s")
        ≡ inr (trim_space (codes "h1" ++ codes "\n")))
load_named-save_named_undoing_example =
    load_named-save_named_undoing calm both_pinned [] (codes "x") (codes "s") (codes "h1")
      (codes "h2") (database ∷ cache ∷ []) set-IsApart set_named

-- a savepoint of a destructive sync from `h1` to `h2`
abbrev way_back : Savepoints
way_back =
    (
      codes "x/snapshots/s",
      record { dumps = some []; schema = text (codes "h1\n"); undoes = text (codes "h2\n") },
    )
    ∷ []

saved_over :
    (save_named calm both_pinned way_back (codes "x") (codes "s") (codes "h3") (cache ∷ [])).1
    ≡ none
unfolding save_named save_named_undoing named_root branch_key path_escape is_plain has_byte
    save_conns save_one_to written settle save_error refusal saw_object write_all write scan
    any_marker contains keep_tail longest file has_prefix drop put delete concat str_eq pin_undoes
    pin_schema get
saved_over = refl

save_named_undoes_example :
    named_undoes_hash
      (save_named calm both_pinned way_back (codes "x") (codes "s") (codes "h3") (cache ∷ [])).0
      (codes "x")
      (codes "s")
    ≡ named_undoes_hash way_back (codes "x") (codes "s")
save_named_undoes_example =
    save_named_undoes calm both_pinned way_back (codes "x") (codes "s") (codes "h3") (cache ∷ [])
      saved_over

went_back :
    (activate (λ n body. none) way_back (codes "x") (codes "s") (inr (codes "h2")) false []).1
    ≡ none
unfolding activate has_named named_schema_hash named_undoes_hash load_named named_root branch_key
    path_escape is_plain has_byte str_eq get guarded is_return_trip schema_guard_blocks load_conns
    trim_space trim_left rev
went_back = refl

activate-IsGuarded_example :
    (has_named way_back (codes "x") (codes "s") ≡ true)
    × IsAllowed
        (named_schema_hash way_back (codes "x") (codes "s"))
        (inr (codes "h2"))
        (named_undoes_hash way_back (codes "x") (codes "s"))
activate-IsGuarded_example =
    activate-IsGuarded (λ n body. none) way_back (codes "x") (codes "s") (inr (codes "h2")) []
      went_back
