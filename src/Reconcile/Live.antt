-- ===== src/Reconcile/Live.antt =====
-- The record of the live branch, and the services that a reconcile stops.
use w17ctl.Base.{
  Str, str_eq, str_eq_iff, Bool, true, false, ◌||◌, Option, none, some, [], ◌≡◌, refl, ◌≢◌, ◌⊎◌,
  inl, inr, if◌then◌else◌, arith,
}
use w17ctl.Reconcile.{
  Effect, Deps, Outcome, Failure, Result, Run, idle, attempt, attempt_if, resume_after,
  record_branch, converge, holds, bring_in, put_away, switch, compare_live, run,
}
use w17ctl.Reconcile.Order.{after_rule, Keeps, KeepsIf}

-- A record that succeeds is what sets the branch that is live, and no other effect changes it. What a
-- record that fails leaves is open.
pub record Recording {W E : Type 0} (d : Deps W E) (Live : Str → W → Type 0) : Type 0 where
  pub record_sets :
      (b : Str) (w : W) → (d.set_last_live b w).0 ≡ none → Live b (d.set_last_live b w).1
  pub quiesce_keeps : (x : Str) → Keeps (Live x) d.quiesce
  pub resume_keeps : (x : Str) → KeepsIf (Live x) d.resume
  pub dump_keeps : (x b : Str) → Keeps (Live x) (d.dump b)
  pub restore_keeps : (x b : Str) → Keeps (Live x) (d.restore b)
  pub build_keeps : (x : Str) → Keeps (Live x) d.build_fresh
  pub seed_keeps : (x : Str) → KeepsIf (Live x) d.seed_fixtures
  pub apply_keeps : (x : Str) → KeepsIf (Live x) d.diff_apply

module _ {W E : Type 0} (d : Deps W E) (Live : Str → W → Type 0) (p : Recording d Live)
    (current old : Str) where
  -- A run that succeeds leaves the incoming branch live, one that fails before the record the old one.
  abbrev pub Ends : Result W E → Type 0
  Ends r =
      (r.1 ≡ none → Live current r.2)
      × ((f : Failure E) → r.1 ≡ some f → ((e : E) × (f ≡ Failure.record_live e)) ⊎ Live old r.2)

  end_attempt :
      (f : Effect W E) (fail : E → Failure E) (out : Outcome) (next : Run W E)
      → Keeps (Live old) f
      → ((w : W) → Live old w → Ends (next w))
      → (w : W) → Live old w
      → Ends (attempt f fail out next w)
  end_attempt f fail out next kf kn w h =
      after_rule Ends fail out next (f w) (λ e q. (λ n. cc, λ g m. inr (kf w h)))
        (λ q. kn (f w).1 (kf w h))

  end_attempt_if :
      (o : Option (Effect W E)) (fail : E → Failure E) (out : Outcome) (next : Run W E)
      → KeepsIf (Live old) o
      → ((w : W) → Live old w → Ends (next w))
      → (w : W) → Live old w
      → Ends (attempt_if o fail out next w)
  end_attempt_if none fail out next kf kn w h = kn w h
  end_attempt_if (some f) fail out next kf kn w h = end_attempt f fail out next kf kn w h

  end_record : (out : Outcome) (w : W) → Live old w → Ends (record_branch d current out w)
  unfolding record_branch
  end_record out w h =
      after_rule Ends Failure.record_live out _ (d.set_last_live current w)
        (λ e q. (λ n. cc, λ g m. inl (e, ground arith)))
        (λ q. (λ n. p.record_sets current w q, λ g m. cc))

  end_converge : (out : Outcome) (w : W) → Live old w → Ends (converge d current out w)
  unfolding converge
  end_converge out =
      end_attempt_if d.diff_apply Failure.apply_failed out _ (p.apply_keeps old) (end_record out)

  end_bring_in : (out : Outcome) (w : W) → Live old w → Ends (bring_in d current out w)
  unfolding bring_in
  end_bring_in out w h = split (holds d d.has_snapshot w current)
    where
      fresh_out : Outcome
      fresh_out = record out { fresh = true }

      split :
          (b : Bool)
          → Ends (
              if◌then◌else◌ {A = Result W E} b
                (attempt (d.restore current) Failure.restore_failed out (converge d current out) w)
                (attempt d.build_fresh Failure.build_failed fresh_out
                  (attempt_if d.seed_fixtures Failure.seed_failed fresh_out
                    (converge d current fresh_out))
                  w))
      split true =
          end_attempt (d.restore current) Failure.restore_failed out _ (p.restore_keeps old current)
            (end_converge out) w h
      split false =
          end_attempt d.build_fresh Failure.build_failed fresh_out _ (p.build_keeps old)
            (end_attempt_if d.seed_fixtures Failure.seed_failed fresh_out _ (p.seed_keeps old)
              (end_converge fresh_out))
            w h

  end_put_away :
      (last : Str) (out : Outcome) (w : W) → Live old w → Ends (put_away d last current out w)
  unfolding put_away
  end_put_away last out w h = split d.skip_snapshot
    where
      split :
          (b : Bool)
          → Ends (
              if◌then◌else◌ {A = Run W E} b
                (bring_in d current (record out { unsnapshotted = last }))
                (attempt (d.dump last) Failure.snapshot_refused out (bring_in d current out))
                w)
      split true = end_bring_in (record out { unsnapshotted = last }) w h
      split false =
          end_attempt (d.dump last) Failure.snapshot_refused out _ (p.dump_keeps old last)
            (end_bring_in out) w h

  end_resume :
      (o : Option (Effect W E)) (r : Result W E)
      → ((x : Str) → KeepsIf (Live x) o)
      → Ends r
      → Ends (resume_after o r)
  end_resume none r k h = h
  end_resume (some f) (out, err, w) k (good, bad) =
      (λ n. k current w (good n), λ g m. elim (bad g m) [ inl x ↦ inl x | inr l ↦ inr (k old w l) ])

  end_compare :
      (last : Str) (err : Option E) (w : W)
      → Live old w
      → Ends (compare_live d current (last, err) w)
  unfolding compare_live switch
  end_compare last (some e) w h = (λ n. cc, λ g m. inr h)
  end_compare last none w h = split (str_eq last [] || str_eq last current)
    where
      out : Outcome
      out = record idle { to = current; from = last }

      split :
          (b : Bool)
          → Ends (
              if◌then◌else◌ {A = Result W E} b
                (record_branch d current out w)
                (switch d last current (record out { switched = true }) w))
      split true = end_record out w h
      split false =
          end_attempt d.quiesce Failure.quiesce_failed (record out { switched = true }) _
            (p.quiesce_keeps old)
            (λ v k.
              end_resume d.resume _ p.resume_keeps
                (end_put_away last (record out { switched = true }) v k))
            w h

-- Where no effect but the record itself touches what is recorded as live, and a record that succeeds
-- sets it: on a branch, a reconcile that succeeds leaves the current branch recorded, and one that fails
-- leaves the record as it was, or failed in writing the record.
pub run_records :
    {W E : Type 0} (d : Deps W E) (Live : Str → W → Type 0) (p : Recording d Live) (old : Str)
    (w : W)
    → d.current_branch w ≢ []
    → Live old w
    → ((run d w).1 ≡ none → Live (d.current_branch w) (run d w).2)
      × ((f : Failure E)
          → (run d w).1 ≡ some f
          → ((e : E) × (f ≡ Failure.record_live e)) ⊎ Live old (run d w).2)
unfolding run
run_records {W} {E} d Live p old w ne h = split (str_eq (d.current_branch w) []) refl
  where
    split :
        (b : Bool)
        → str_eq (d.current_branch w) [] ≡ b
        → Ends d Live p (d.current_branch w) old (
            if◌then◌else◌ {A = Result W E} b
              (idle, none, w)
              (compare_live d (d.current_branch w) (d.last_live w) w))
    split true e = absurd (ne ((str_eq_iff (d.current_branch w) []).0 e))
    split false e =
        end_compare d Live p (d.current_branch w) old (d.last_live w).0 (d.last_live w).1 w h

-- How a run that began in `w` ends, where `f` restarts the services.
abbrev pub IsResumed : {W E : Type 0} → Deps W E → Effect W E → W → Result W E → Type 0
IsResumed {W} {E} d f w r =
    ((r.0.switched ≡ false) × ((r.2 ≡ w) ⊎ (r.2 ≡ (d.set_last_live (d.current_branch w) w).1)))
    ⊎ ((e : E) × ((d.quiesce w).0 ≡ some e)
        × (r.1 ≡ some (Failure.quiesce_failed e))
        × (r.2 ≡ (d.quiesce w).1))
    ⊎ (((d.quiesce w).0 ≡ none) × ((v : W) × (r.2 ≡ (f v).1)))

-- Where a restart is given: a run that does not switch does nothing but record the branch, at most; and a
-- run that switches ends with the restart, whatever fails in it, in every case but one: where the quiesce
-- itself fails, the run ends in the world that it left.
pub run_resumes :
    {W E : Type 0} (d : Deps W E) (f : Effect W E) (w : W)
    → d.resume ≡ some f
    → IsResumed d f w (run d w)
unfolding run
run_resumes {W} {E} d f w restart = split (str_eq (d.current_branch w) []) (d.last_live w)
  where
    current : Str
    current = d.current_branch w

    resumed :
        (o : Option (Effect W E))
        → o ≡ some f
        → (r : Result W E) → (v : W) × ((resume_after o r).2 ≡ (f v).1)
    resumed none e r = cc
    resumed (some g) e (out, err, v) = (v, ground arith)

    recorded :
        (out : Outcome) → out.switched ≡ false → IsResumed d f w (record_branch d current out w)
    recorded out h =
        unfold record_branch in
        after_rule (IsResumed d f w) Failure.record_live out _ (d.set_last_live current w)
          (λ e q. inl (h, inr refl)) (λ q. inl (h, inr refl))

    switched : (last : Str) (out : Outcome) → IsResumed d f w (switch d last current out w)
    switched last out =
        unfold switch in
        after_rule (IsResumed d f w) Failure.quiesce_failed out _ (d.quiesce w)
          (λ e q. inr (inl (e, q, refl, refl))) (λ q. inr (inr (q, resumed d.resume restart _)))

    compared :
        (b : Bool) (last : Str) (out : Outcome)
        → out.switched ≡ false
        → IsResumed d f w (
            if◌then◌else◌ {A = Result W E} b
              (record_branch d current out w)
              (switch d last current (record out { switched = true }) w))
    compared true last out h = recorded out h
    compared false last out h = switched last (record out { switched = true })

    live : (r : Str × Option E) → IsResumed d f w (compare_live d current r w)
    live (last, some e) = unfold compare_live in inl (refl, inl refl)
    live (last, none) =
        unfold compare_live in
        compared (str_eq last [] || str_eq last current) last
          (record idle { to = current; from = last }) refl

    split :
        (b : Bool) (r : Str × Option E)
        → IsResumed d f w
            (if◌then◌else◌ {A = Result W E} b (idle, none, w) (compare_live d current r w))
    split true r = inl (refl, inl refl)
    split false r = live r
