-- ===== src/Snapstore/Savepoints.antt =====
-- internal/snapstore/snapstore.go and cmd/db/cmd.go: what a savepoint gives back, and when it is
-- restored.
use w17ctl.Base.{
  Str, codes, str_eq, str_eq_iff, str_eq_self, trim_space, Bool, true, false, not, Option, none,
  some, List, [], ◌++◌, map, ◌≡◌, refl, ap, ◌∙◌, ◌⊎◌, inl, inr, is_some, if◌then◌else◌, arith,
}
use w17ctl.Base.Assoc.{put, get-put}
use w17ctl.Snapstore.{Conn, Os, Dir, Saved, concat, save_conns, load_conns}
use w17ctl.Snapstore.RoundTrip.{IsApart, load_conns-save_conns}
use w17ctl.Snapstore.Named.{
  text, read_pin, Savepoint, Savepoints, savepoint_at, dumps_of, named_root, NamedError, Pins,
  pin_schema, pin_undoes, asked, against, pinned_after, saved_at, save_named_undoing, save_named,
  schema_at, undoes_at, named_schema_hash, named_undoes_hash, loaded, loaded_at, load_named,
  is_return_trip, schema_guard_blocks, Activated, restored, or_nothing, guarded, activate,
  has_named, not_pinned, no_savepoint, absent,
}

savepoint_at-put :
    (t : Savepoints) (root : Str) (p : Savepoint) → savepoint_at (put t root p) root ≡ p
savepoint_at-put t root p = ground (arith, get-put t root root p, str_eq_self root)

-- What a savepoint holds once every step of saving it worked.
abbrev pub IsPinned : Str → Str → Savepoint → Savepoint → Type 0
IsPinned hash undoes p q =
    (q.dumps ≡ p.dumps)
    × (q.schema ≡ text (hash ++ codes "\n"))
    × (q.undoes ≡ (if str_eq undoes [] then p.undoes else text (undoes ++ codes "\n")))

-- The same, of an outcome.
abbrev IsPinning : Str → Str → Savepoint → Savepoint × Option NamedError → Type 0
IsPinning hash undoes p (q, none) = IsPinned hash undoes p q
IsPinning hash undoes p (q, some e) = Unit

pin_undoes-IsPinning :
    (pins : Pins) (hash undoes : Str) (p : Savepoint)
    → IsPinning hash undoes p (pin_undoes pins hash undoes p)
unfolding pin_undoes pin_schema
pin_undoes-IsPinning pins hash undoes p =
    split (str_eq undoes []) refl pins.undoes_error pins.schema_error
  where
    schema : (e : Option Str) → Savepoint → Savepoint × Option NamedError
    schema e q = elim e [
      | some x ↦ (q, some (not_pinned x))
      | none ↦ (record q { schema = text (hash ++ codes "\n") }, none)
    ]

    split :
        (b : Bool)
        → str_eq undoes [] ≡ b
        → (u s : Option Str)
        → IsPinning hash undoes p (
            if◌then◌else◌ {A = Savepoint × Option NamedError} b (schema s p) (elim u [
              | some x ↦ (p, some (not_pinned x))
              | none ↦ schema s (record p { undoes = text (undoes ++ codes "\n") })
            ]))
    split true e u (some x) = tt
    split true e u none = (refl, refl, ground arith)
    split false e (some y) s = tt
    split false e none (some x) = tt
    split false e none none = (refl, refl, ground arith)

saved-IsPinned :
    (os : Os) (pins : Pins) (hash undoes : Str) (cs : List Conn) (p : Savepoint)
    → (pinned_after pins hash undoes p (save_conns os cs (dumps_of p))).1 ≡ none
    → (d : Dir) × (save_conns os cs (dumps_of p) ≡ (d, none))
      × IsPinned hash undoes
          (record p { dumps = some d })
          (pinned_after pins hash undoes p (save_conns os cs (dumps_of p))).0
saved-IsPinned os pins hash undoes cs p = split (save_conns os cs (dumps_of p)) refl
  where
    of_outcome :
        (d : Dir) (r : Savepoint × Option NamedError)
        → IsPinning hash undoes (record p { dumps = some d }) r
        → r.1 ≡ none
        → IsPinned hash undoes (record p { dumps = some d }) r.0
    of_outcome d (q, none) i e = i
    of_outcome d (q, some x) i e = cc

    split :
        (r : Saved)
        → save_conns os cs (dumps_of p) ≡ r
        → (pinned_after pins hash undoes p r).1 ≡ none
        → (d : Dir) × (save_conns os cs (dumps_of p) ≡ (d, none))
          × IsPinned hash undoes (record p { dumps = some d }) (pinned_after pins hash undoes p r).0
    split (d, some x) e h = cc
    split (d, none) e h = (
      d,
      e,
      of_outcome d (pin_undoes pins hash undoes (record p { dumps = some d }))
          (pin_undoes-IsPinning pins hash undoes (record p { dumps = some d })) h,
    )

-- Where no two stores share a dump's file and no store's file is the temporary file of another, a
-- savepoint whose every step worked is there, gives back the dumps that were taken, every store its own,
-- and answers the schema that was pinned, a line end behind it, trimmed of space at both ends.
pub load_named-save_named_undoing :
    (os : Os) (pins : Pins) (t : Savepoints) (initiative name hash undoes : Str) (cs : List Conn)
    → IsApart os cs
    → (save_named_undoing os pins t initiative name hash undoes cs).1 ≡ none
    → let after = (save_named_undoing os pins t initiative name hash undoes cs).0 in
      (load_named (λ n body. none) after initiative name cs
        ≡ (map (λ c. (c.name, concat c.chunks)) cs, none))
      × (named_schema_hash after initiative name ≡ inr (trim_space (hash ++ codes "\n")))
unfolding save_named_undoing load_named named_schema_hash
load_named-save_named_undoing os pins t initiative name hash undoes cs apart =
    split (named_root initiative name)
  where
    load_from :
        (x : Savepoint) (d : Dir)
        → x.dumps ≡ some d
        → (if◌then◌else◌ {A = List (Str × Str) × Option NamedError}
            (is_some x.dumps)
            (loaded (load_conns (λ n body. none) (dumps_of x) cs))
            ([], some no_savepoint))
          ≡ loaded (load_conns (λ n body. none) d cs)
    load_from x d e = rw e refl

    split :
        (o : Option Str)
        → (saved_at os pins hash undoes cs t o).1 ≡ none
        → (loaded_at (λ n body. none) (saved_at os pins hash undoes cs t o).0 cs o
            ≡ (map (λ c. (c.name, concat c.chunks)) cs, none))
          × (schema_at (saved_at os pins hash undoes cs t o).0 o
              ≡ inr (trim_space (hash ++ codes "\n")))
    split none h = absurd (ground arith)
    split (some root) h =
        let p = savepoint_at t root in
        let q = (pinned_after pins hash undoes p (save_conns os cs (dumps_of p))).0 in
        let (d, e, (dq, sq, uq)) = saved-IsPinned os pins hash undoes cs p h in
        (
          load_from (savepoint_at (put t root q) root) d
                (ap Savepoint.dumps (savepoint_at-put t root q) ∙ dq)
              ∙ ap loaded (load_conns-save_conns os cs (dumps_of p) d apart e),
          ap read_pin (ap Savepoint.schema (savepoint_at-put t root q) ∙ sq),
        )

-- An ordinary save under a name that is taken leaves the change that the old savepoint undoes pinned as
-- it was.
pub save_named_undoes :
    (os : Os) (pins : Pins) (t : Savepoints) (initiative name hash : Str) (cs : List Conn)
    → (save_named os pins t initiative name hash cs).1 ≡ none
    → named_undoes_hash (save_named os pins t initiative name hash cs).0 initiative name
      ≡ named_undoes_hash t initiative name
unfolding save_named save_named_undoing named_undoes_hash str_eq
save_named_undoes os pins t initiative name hash cs = split (named_root initiative name)
  where
    split :
        (o : Option Str)
        → (saved_at os pins hash [] cs t o).1 ≡ none
        → undoes_at (saved_at os pins hash [] cs t o).0 o ≡ undoes_at t o
    split none h = refl
    split (some root) h =
        let p = savepoint_at t root in
        let q = (pinned_after pins hash [] p (save_conns os cs (dumps_of p))).0 in
        let (d, e, (dq, sq, uq)) = saved-IsPinned os pins hash [] cs p h in
        ap read_pin (ap Savepoint.undoes (savepoint_at-put t root q) ∙ uq)

guarded_sound :
    (pinned current undoes : Str) (given : Activated)
    → (guarded pinned current undoes false given).1 ≡ none
    → (pinned ≡ []) ⊎ (current ≡ []) ⊎ (pinned ≡ current) ⊎ (undoes ≡ current)
unfolding guarded is_return_trip schema_guard_blocks
guarded_sound pinned current undoes given h = ground (
  arith,
  str_eq_iff pinned [],
  str_eq_iff current [],
  str_eq_iff pinned current,
  str_eq_iff undoes current,
)

-- The schemas that were read, and why the guard let them pass.
abbrev pub IsAllowed : NamedError ⊎ Str → Str ⊎ Str → NamedError ⊎ Str → Type 0
IsAllowed schema console undoes =
    (pinned : Str) × (current : Str) × (schema ≡ inr pinned)
    × (console ≡ inr current)
    × ((pinned ≡ []) ⊎ (current ≡ []) ⊎ (pinned ≡ current) ⊎ (undoes ≡ inr current))

against-IsAllowed :
    (schema : NamedError ⊎ Str) (console : Str ⊎ Str) (undoes : NamedError ⊎ Str)
    (given : Activated)
    → (against (asked schema false) (asked console false) (or_nothing undoes) false given).1 ≡ none
    → IsAllowed schema console undoes
against-IsAllowed (inl e) console undoes given h = absurd (ground arith)
against-IsAllowed (inr pinned) (inl e) undoes given h = absurd (ground arith)
against-IsAllowed (inr pinned) (inr current) (inl e) given h =
    (pinned, current, refl, refl, ground (arith, guarded_sound pinned current [] given h))
against-IsAllowed (inr pinned) (inr current) (inr undoes) given h =
    (pinned, current, refl, refl, ground (arith, guarded_sound pinned current undoes given h))

-- Without force, a restoration that works found the savepoint, read its pinned schema and got the
-- current one from the console, and restored nothing into a schema that is known to differ: one of the
-- two is empty, or they are the same, or the savepoint undoes the change that led to the current one.
pub activate-IsGuarded :
    (restores : Str → Str → Option Str) (t : Savepoints) (initiative name : Str)
    (console : Str ⊎ Str) (cs : List Conn)
    → (activate restores t initiative name console false cs).1 ≡ none
    → (has_named t initiative name ≡ true)
      × IsAllowed
          (named_schema_hash t initiative name)
          console
          (named_undoes_hash t initiative name)
unfolding activate
activate-IsGuarded restores t initiative name console cs =
    found (has_named t initiative name) (named_schema_hash t initiative name)
      (named_undoes_hash t initiative name) (restored (load_named restores t initiative name cs))
  where
    found :
        (b : Bool) (schema undoes : NamedError ⊎ Str) (given : Activated)
        → (if◌then◌else◌ {A = Activated}
            (not b)
            ([], some absent)
            (against (asked schema false) (asked console false) (or_nothing undoes) false given)).1
          ≡ none
        → (b ≡ true) × IsAllowed schema console undoes
    found false schema undoes given h = absurd (ground arith)
    found true schema undoes given h = (refl, against-IsAllowed schema console undoes given h)
