-- ===== src/Reconcile/Order.antt =====
-- What a reconcile keeps, whatever its effects answer. The hypotheses on the effects say which of them
-- touches what; `Reconcile/Tests.antt` has effects that satisfy them.
use w17ctl.Base.{
  Str, str_eq, Bool, true, false, ◌||◌, Option, none, some, [], ◌≡◌, refl, ◌⊎◌, inl, inr,
  if◌then◌else◌, arith,
}
use w17ctl.Reconcile.{
  Effect, Deps, Outcome, Failure, Result, Run, idle, after, attempt, attempt_if, resume_after,
  record_branch, converge, holds, bring_in, put_away, switch, compare_live, run,
}

module _ {W E : Type 0} where
  -- A property of what is left of a run.
  pub after_rule :
      (Q : Result W E → Type 0) (fail : E → Failure E) (out : Outcome) (next : Run W E)
      (r : Option E × W)
      → ((e : E) → r.0 ≡ some e → Q (out, some (fail e), r.1))
      → (r.0 ≡ none → Q (next r.1))
      → Q (after fail out next r)
  after_rule Q fail out next (some e, w) bad good = bad e refl
  after_rule Q fail out next (none, w) bad good = good refl

  -- An effect keeps a property of the world, whether it fails or not.
  abbrev pub Keeps : (W → Type 0) → Effect W E → Type 0
  Keeps P f = (w : W) → P w → P (f w).1

  abbrev pub KeepsIf : (W → Type 0) → Option (Effect W E) → Type 0
  KeepsIf P none = Unit
  KeepsIf P (some f) = Keeps P f

  keep_attempt :
      (P : W → Type 0) (f : Effect W E) (fail : E → Failure E) (out : Outcome) (next : Run W E)
      → Keeps P f
      → ((w : W) → P w → P (next w).2)
      → (w : W) → P w
      → P (attempt f fail out next w).2
  keep_attempt P f fail out next kf kn w h =
      after_rule (λ r. P r.2) fail out next (f w) (λ e q. kf w h) (λ q. kn (f w).1 (kf w h))

  keep_attempt_if :
      (P : W → Type 0) (o : Option (Effect W E)) (fail : E → Failure E) (out : Outcome)
      (next : Run W E)
      → KeepsIf P o
      → ((w : W) → P w → P (next w).2)
      → (w : W) → P w
      → P (attempt_if o fail out next w).2
  keep_attempt_if P none fail out next kf kn w h = kn w h
  keep_attempt_if P (some f) fail out next kf kn w h = keep_attempt P f fail out next kf kn w h

  keep_resume :
      (P : W → Type 0) (o : Option (Effect W E)) (r : Result W E)
      → KeepsIf P o
      → P r.2
      → P (resume_after o r).2
  keep_resume P none r k h = h
  keep_resume P (some f) (out, err, w) k h = k w h

-- Which effects may touch the stores, and when: stopping and restarting services, and recording the
-- branch, leave the outgoing branch's data where it is; a dump that succeeds saves it, and one that
-- fails changes nothing; and what is saved stays saved.
pub record Protocol {W E : Type 0} (d : Deps W E) (Untouched : W → Type 0)
    (Saved : Str → W → Type 0) : Type 0 where
  pub quiesce_keeps : Keeps Untouched d.quiesce
  pub resume_keeps : KeepsIf Untouched d.resume
  pub record_keeps : (b : Str) → Keeps Untouched (d.set_last_live b)
  pub dump_fails :
      (b : Str) (w : W) (e : E) → Untouched w → (d.dump b w).0 ≡ some e → Untouched (d.dump b w).1
  pub dump_saves : (b : Str) (w : W) → Untouched w → (d.dump b w).0 ≡ none → Saved b (d.dump b w).1
  pub resume_saved : (b : Str) → KeepsIf (Saved b) d.resume
  pub record_saved : (b c : Str) → Keeps (Saved b) (d.set_last_live c)
  pub restore_saved : (b c : Str) → Keeps (Saved b) (d.restore c)
  pub build_saved : (b : Str) → Keeps (Saved b) d.build_fresh
  pub seed_saved : (b : Str) → KeepsIf (Saved b) d.seed_fixtures
  pub apply_saved : (b : Str) → KeepsIf (Saved b) d.diff_apply

module _ {W E : Type 0} (d : Deps W E) (P : W → Type 0)
    (kr : (b : Str) → Keeps P (d.set_last_live b)) (ka : KeepsIf P d.diff_apply)
    (ks : KeepsIf P d.seed_fixtures) (kb : Keeps P d.build_fresh)
    (kt : (b : Str) → Keeps P (d.restore b)) where
  keep_record : (current : Str) (out : Outcome) (w : W) → P w → P (record_branch d current out w).2
  unfolding record_branch
  keep_record current out =
      keep_attempt P (d.set_last_live current) Failure.record_live out _ (kr current) (λ w h. h)

  keep_converge : (current : Str) (out : Outcome) (w : W) → P w → P (converge d current out w).2
  unfolding converge
  keep_converge current out =
      keep_attempt_if P d.diff_apply Failure.apply_failed out (record_branch d current out) ka
        (keep_record current out)

  keep_bring_in : (current : Str) (out : Outcome) (w : W) → P w → P (bring_in d current out w).2
  unfolding bring_in
  keep_bring_in current out w h = split (holds d d.has_snapshot w current)
    where
      fresh_out : Outcome
      fresh_out = record out { fresh = true }

      split :
          (b : Bool)
          → P
              (if◌then◌else◌ {A = Result W E} b
                (attempt (d.restore current) Failure.restore_failed out (converge d current out) w)
                (attempt d.build_fresh Failure.build_failed fresh_out
                  (attempt_if d.seed_fixtures Failure.seed_failed fresh_out
                    (converge d current fresh_out))
                  w)).2
      split true =
          keep_attempt P (d.restore current) Failure.restore_failed out (converge d current out)
            (kt current) (keep_converge current out) w h
      split false =
          keep_attempt P d.build_fresh Failure.build_failed fresh_out _ kb
            (keep_attempt_if P d.seed_fixtures Failure.seed_failed fresh_out
              (converge d current fresh_out) ks (keep_converge current fresh_out))
            w h

module _ {W E : Type 0} (d : Deps W E) (Untouched : W → Type 0) (Saved : Str → W → Type 0)
    (p : Protocol d Untouched Saved) where
  abbrev Recoverable : Str → W → Type 0
  Recoverable last w = Untouched w ⊎ Saved last w

  resume_keeps_both : (last : Str) → KeepsIf (Recoverable last) d.resume
  resume_keeps_both last = both d.resume p.resume_keeps (p.resume_saved last)
    where
      both :
          (o : Option (Effect W E))
          → KeepsIf Untouched o
          → KeepsIf (Saved last) o
          → KeepsIf (Recoverable last) o
      both none k l = tt
      both (some f) k l = λ w h. elim h [ inl u ↦ inl (k w u) | inr s ↦ inr (l w s) ]

  put_away-Recoverable :
      (last current : Str) (out : Outcome) (w : W)
      → d.skip_snapshot ≡ false
      → Untouched w
      → Recoverable last (put_away d last current out w).2
  unfolding put_away
  put_away-Recoverable last current out w noskip u = split d.skip_snapshot noskip
    where
      split :
          (b : Bool)
          → b ≡ false
          → Recoverable last
              (if◌then◌else◌ {A = Run W E} b
                (bring_in d current (record out { unsnapshotted = last }))
                (attempt (d.dump last) Failure.snapshot_refused out (bring_in d current out))
                w).2
      split true e = absurd (ground arith)
      split false e =
          after_rule (λ r. Recoverable last r.2) Failure.snapshot_refused out
            (bring_in d current out) (d.dump last w) (λ e q. inl (p.dump_fails last w e u q))
            (λ q. inr (
              keep_bring_in d (Saved last) (p.record_saved last) (p.apply_saved last)
                (p.seed_saved last) (p.build_saved last) (p.restore_saved last) current out
                (d.dump last w).1 (p.dump_saves last w u q)))

  switch-Recoverable :
      (last current : Str) (out : Outcome) (w : W)
      → d.skip_snapshot ≡ false
      → Untouched w
      → Recoverable last (switch d last current out w).2
  unfolding switch
  switch-Recoverable last current out w noskip u =
      after_rule (λ r. Recoverable last r.2) Failure.quiesce_failed out _ (d.quiesce w)
        (λ e q. inl (p.quiesce_keeps w u))
        (λ q.
          keep_resume (Recoverable last) d.resume _ (resume_keeps_both last)
            (put_away-Recoverable last current out (d.quiesce w).1 noskip (p.quiesce_keeps w u)))

  compare-Recoverable :
      (current last : Str) (err : Option E) (w : W)
      → d.skip_snapshot ≡ false
      → Untouched w
      → Recoverable last (compare_live d current (last, err) w).2
  unfolding compare_live
  compare-Recoverable current last (some e) w noskip u = inl u
  compare-Recoverable current last none w noskip u = split (str_eq last [] || str_eq last current)
    where
      out : Outcome
      out = record idle { to = current; from = last }

      split :
          (b : Bool)
          → Recoverable last
              (if◌then◌else◌ {A = Result W E} b
                (record_branch d current out w)
                (switch d last current (record out { switched = true }) w)).2
      split true = inl (
          unfold record_branch in
          keep_attempt Untouched (d.set_last_live current) Failure.record_live out _
            (p.record_keeps current) (λ v h. h) w u)
      split false = switch-Recoverable last current (record out { switched = true }) w noskip u

  -- Unless the snapshot is skipped on purpose, a reconcile never loses the outgoing branch's data:
  -- however its steps fail, either the stores still hold it or its snapshot was taken.
  pub run-Recoverable :
      (w : W) → d.skip_snapshot ≡ false → Untouched w → Recoverable (d.last_live w).0 (run d w).2
  unfolding run
  run-Recoverable w noskip u = split (str_eq (d.current_branch w) [])
    where
      split :
          (b : Bool)
          → Recoverable
              (d.last_live w).0
              (if◌then◌else◌ {A = Result W E} b
                (idle, none, w)
                (compare_live d (d.current_branch w) (d.last_live w) w)).2
      split true = inl u
      split false =
          compare-Recoverable (d.current_branch w) (d.last_live w).0 (d.last_live w).1 w noskip u
