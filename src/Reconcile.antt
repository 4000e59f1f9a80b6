-- ===== src/Reconcile.antt =====
-- internal/reconcile/reconcile.go: the branch-switch reconcile, over the effects that its caller
-- injects. An effect acts on a world `W` - the stores, the snapshots and the record of the live
-- branch - and may fail; the progress lines of `Logf` are left out.
mod Tests
pub mod Order
pub mod Live
use w17ctl.Base.{Str, str_eq, Bool, true, false, not, ◌||◌, Option, none, some, [], if◌then◌else◌}

-- An effect: the world after it, and its error if it fails.
abbrev pub Effect : Type 0 → Type 0 → Type 0
Effect W E = W → Option E × W

-- `Deps`; a `none` is a nil function, and `current_branch`, `last_live` and `set_last_live` are
-- required.
pub record Deps (W E : Type 0) : Type 0 where
  pub current_branch : W → Str
  pub skip_snapshot : Bool
  pub last_live : W → (Str × Option E)
  pub set_last_live : Str → Effect W E
  pub has_snapshot : Option (W → Str → Bool)
  pub quiesce : Effect W E
  pub resume : Option (Effect W E)
  pub dump : Str → Effect W E
  pub restore : Str → Effect W E
  pub build_fresh : Effect W E
  pub seed_fixtures : Option (Effect W E)
  pub diff_apply : Option (Effect W E)

pub record Outcome : Type 0 where
  pub switched : Bool
  pub from : Str
  pub to : Str
  pub fresh : Bool
  pub unsnapshotted : Str

-- Where a run stopped.
pub data Failure (E : Type 0) : Type 0 where
  read_last_live record_live quiesce_failed snapshot_refused restore_failed build_failed :
      E → Failure E
  seed_failed apply_failed : E → Failure E

abbrev pub idle : Outcome
idle = record { switched = false; from = []; to = []; fresh = false; unsnapshotted = [] }

-- What is left of a run: the outcome, the error, the world.
abbrev pub Result : Type 0 → Type 0 → Type 0
Result W E = Outcome × Option (Failure E) × W

abbrev pub Run : Type 0 → Type 0 → Type 0
Run W E = W → Result W E

module _ {W E : Type 0} where
  -- The rest of a run behind an effect that may stop it.
  abbrev pub after : (E → Failure E) → Outcome → Run W E → Option E × W → Result W E
  after fail out next (some e, w) = (out, some (fail e), w)
  after fail out next (none, w) = next w

  abbrev pub attempt : Effect W E → (E → Failure E) → Outcome → Run W E → Run W E
  attempt f fail out next w = after fail out next (f w)

  abbrev pub attempt_if : Option (Effect W E) → (E → Failure E) → Outcome → Run W E → Run W E
  attempt_if none fail out next = next
  attempt_if (some f) fail out next = attempt f fail out next

  -- the deferred restart, whose error is only logged
  abbrev pub resume_after : Option (Effect W E) → Result W E → Result W E
  resume_after none r = r
  resume_after (some f) (out, err, w) = (out, err, (f w).1)

module _ {W E : Type 0} (d : Deps W E) where
  open d use {
    current_branch, skip_snapshot, last_live, set_last_live, has_snapshot, quiesce, resume, dump,
    restore, build_fresh, seed_fixtures, diff_apply,
  }

  record_branch : Str → Outcome → Run W E
  record_branch current out = attempt (set_last_live current) record_live out (λ w. (out, none, w))

  -- converge to the current proto, then record the branch
  converge : Str → Outcome → Run W E
  unfolding record_branch
  converge current out = attempt_if diff_apply apply_failed out (record_branch current out)

  abbrev holds : Option (W → Str → Bool) → W → Str → Bool
  holds none w branch = false
  holds (some f) w branch = f w branch

  -- the incoming branch: its snapshot, or a fresh build with fixtures
  bring_in : Str → Outcome → Run W E
  unfolding converge
  bring_in current out w =
      let fresh_out = record out { fresh = true } in
      if holds has_snapshot w current
      then attempt (restore current) restore_failed out (converge current out) w
      else attempt build_fresh build_failed fresh_out
          (attempt_if seed_fixtures seed_failed fresh_out (converge current fresh_out)) w

  -- the outgoing branch: its snapshot, unless it is skipped
  put_away : Str → Str → Outcome → Run W E
  unfolding bring_in
  put_away last current out =
      if skip_snapshot
      then bring_in current (record out { unsnapshotted = last })
      else attempt (dump last) snapshot_refused out (bring_in current out)

  switch : Str → Str → Outcome → Run W E
  unfolding put_away
  switch last current out =
      attempt quiesce quiesce_failed out (λ w. resume_after resume (put_away last current out w))

  -- behind the read of the live branch
  compare_live : Str → Str × Option E → Run W E
  unfolding switch record_branch
  compare_live current (last, some e) w = (record idle { to = current }, some (read_last_live e), w)
  compare_live current (last, none) w =
      let out = record idle { to = current; from = last } in
      if str_eq last [] || str_eq last current
      then record_branch current out w
      else switch last current (record out { switched = true }) w

  -- `Run`
  unfoldable pub run : Run W E
  unfolding compare_live
  run w =
      let current = current_branch w in
      if str_eq current [] then (idle, none, w) else compare_live current (last_live w) w
