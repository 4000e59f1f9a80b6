-- ===== src/Reconcile/Tests.antt =====
-- Effects on a small world, and the theorems at runs over it.
use w17ctl.Base.{
  ℕ, Str, codes, str_eq, str_eq_self, Bool, true, false, ◌||◌, none, some, List, [], ◌∷◌, ◌≡◌, refl,
  ◌⊎◌, ◌≢◌, if◌then◌else◌, arith,
}
use w17ctl.Reconcile.{Effect, Deps, Failure, run}
use w17ctl.Reconcile.Order.{Protocol, run-Recoverable}
use w17ctl.Reconcile.Live.{Recording, run_records, IsResumed, run_resumes}

-- Which branch's data the stores hold, which branches have a snapshot, which branch is recorded, and
-- whether the services run.
record World : Type 0 where
  stores : Str
  snapshots : List Str
  live : Str
  up : Bool

has : List Str → Str → Bool
has [] b = false
has (x ∷ xs) b = str_eq x b || has xs b

-- A machine on which dumps fail or not, standing on the branch `topic`.
abbrev machine : Bool → Deps World ℕ
machine broken = record {
  current_branch = λ w. codes "topic";
  skip_snapshot = false;
  last_live = λ w. (w.live, none);
  set_last_live = λ b w. (none, record w { live = b });
  has_snapshot = some (λ w b. has w.snapshots b);
  quiesce = λ w. (none, record w { up = false });
  resume = some (λ w. (none, record w { up = true }));
  dump = λ b w. if broken then (some 1, w) else (none, record w { snapshots = b ∷ w.snapshots });
  restore = λ b w. (none, record w { stores = b });
  build_fresh = λ w. (none, record w { stores = codes "topic" });
  seed_fixtures = none;
  diff_apply = none;
}

abbrev on_main : World
on_main = record { stores = codes "main"; snapshots = []; live = codes "main"; up = true }

abbrev Untouched : World → Type 0
Untouched w = w.stores ≡ codes "main"

abbrev Saved : Str → World → Type 0
Saved b w = has w.snapshots b ≡ true

machine-Protocol : (broken : Bool) → Protocol (machine broken) Untouched Saved
unfolding has
machine-Protocol broken = record {
  quiesce_keeps = λ w h. h;
  resume_keeps = λ w h. h;
  record_keeps = λ b w h. h;
  dump_fails = λ b w e h q. ground arith;
  dump_saves = λ b w h q. ground (arith, str_eq_self b);
  resume_saved = λ b w h. h;
  record_saved = λ b c w h. h;
  restore_saved = λ b c w h. h;
  build_saved = λ b w h. h;
  seed_saved = λ b. tt;
  apply_saved = λ b. tt;
}

run-Recoverable_example :
    Untouched (run (machine false) on_main).2 ⊎ Saved (codes "main") (run (machine false) on_main).2
run-Recoverable_example =
    run-Recoverable (machine false) Untouched Saved (machine-Protocol false) on_main refl refl

abbrev Live : Str → World → Type 0
Live b w = w.live ≡ b

machine-Recording : (broken : Bool) → Recording (machine broken) Live
machine-Recording broken = record {
  record_sets = λ b w q. refl;
  quiesce_keeps = λ x w h. h;
  resume_keeps = λ x w h. h;
  dump_keeps = λ x b w h. ground arith;
  restore_keeps = λ x b w h. h;
  build_keeps = λ x w h. h;
  seed_keeps = λ x. tt;
  apply_keeps = λ x. tt;
}

topic_ne_nil : ◌≢◌ {A = Str} (codes "topic") []
topic_ne_nil e = cc

run_records_example :
    ((run (machine true) on_main).1 ≡ none → Live (codes "topic") (run (machine true) on_main).2)
    × ((f : Failure ℕ)
        → (run (machine true) on_main).1 ≡ some f
        → ((e : ℕ) × (f ≡ Failure.record_live e))
          ⊎ Live (codes "main") (run (machine true) on_main).2)
run_records_example =
    run_records (machine true) Live (machine-Recording true) (codes "main") on_main topic_ne_nil
      refl

abbrev start : Effect World ℕ
start w = (none, record w { up = true })

run_resumes_example : IsResumed (machine true) start on_main (run (machine true) on_main)
run_resumes_example = run_resumes (machine true) start on_main refl

-- A switch with a working dump: the outgoing branch has its snapshot, the incoming one is live.
switches : (run (machine false) on_main).2 ≡ record {
  stores = codes "topic";
  snapshots = codes "main" ∷ [];
  live = codes "topic";
  up = true;
}
unfolding run has str_eq
switches = refl

-- A dump that fails stops the switch before the stores are touched.
refuses :
    ((run (machine true) on_main).1 ≡ some (Failure.snapshot_refused 1))
    × ((run (machine true) on_main).2 ≡ on_main)
unfolding run has str_eq
refuses = (refl, refl)
