-- ===== src/Tunnel/Tests.antt =====
-- Two forwards of a project, and a caller that replaces a tunnel.
use w17ctl.Base.{codes, ℤ, pos, true, none, some, [], ◌∷◌, ◌≡◌, refl, ◌≢◌, In, inl, inr, arith}
use w17ctl.Base.Sort.{IsSorted}
use w17ctl.Tunnel.{
  Forward, is_positive, by_port, forwards_from_ports, State, saved, absent, World, Os, replace,
  close_locked, close_file, remove_record, kill_pid, without,
}
use w17ctl.Tunnel.Forwards.{IsDistinct, HasLocal, IsAsked, forwards_from_ports_lem}
use w17ctl.Tunnel.Tracked.{IsTracked, IsReplaced, replace-IsReplaced}
use w17ctl.Tunnel.Lock.{
  outside, entered, torn, started, Config, at, leave, enter, tear, launch, write, Reaches, here,
  next, IsSafe, Reaches-IsSafe,
}

abbrev extra : Forward
extra = record { local_port = pos 8080; remote_port = pos 50051 }

forwards_from_ports_lem_example :
    let ports = pos 8080 ∷ pos 0 ∷ pos 5432 ∷ [] in
    let out = forwards_from_ports ports (extra ∷ []) in
    IsSorted by_port out
    × IsDistinct out
    × ((f : Forward) → In f out → (f.local_port ≢ pos 0) × IsAsked ports (extra ∷ []) f)
    × ((p : ℤ) → In p ports → p ≢ pos 0 → HasLocal p out)
    × ((e : Forward) → In e (extra ∷ []) → e.local_port ≢ pos 0 → HasLocal e.local_port out)
    × ((e f : Forward)
        → In e (extra ∷ [])
        → In f out
        → f.local_port ≡ e.local_port
        → In f (extra ∷ []))
forwards_from_ports_lem_example =
    forwards_from_ports_lem (pos 8080 ∷ pos 0 ∷ pos 5432 ∷ []) (extra ∷ [])

abbrev working : Os
working = record { dies = λ p. true; removes = true; writes = true }

dying : (p : ℤ) → working.dies p ≡ true
dying p = refl

abbrev before : State
before = record { pid = pos 41; remote = codes "old"; forwards = [] }

abbrev after : State
after = record { pid = pos 42; remote = codes "new"; forwards = extra ∷ [] }

abbrev running : World
running = record { file = saved before; live = pos 41 ∷ [] }

abbrev idle : Config
idle = record { holder = none; phase = λ j. outside; world = running }

running-IsTracked : IsTracked running
running-IsTracked p (inl e) = (before, refl, ground arith, ground arith)
running-IsTracked p (inr i) = absurd i

started_pid : (st : State) → some after ≡ some st → is_positive st.pid ≡ true
started_pid st e = ground arith

replace-IsReplaced_example :
    IsReplaced working dying (some after) (replace working (some after) running)
replace-IsReplaced_example =
    replace-IsReplaced working dying (some after) running refl started_pid running-IsTracked

abbrev gone : World
gone = record { file = absent; live = [] }

torn_down : close_locked working running ≡ (none, gone)
unfolding close_locked close_file remove_record kill_pid without
torn_down = refl

-- one caller enters, tears down, launches and records
abbrev in_lock : Config
in_lock = record { holder = some 0; phase = at idle.phase 0 entered; world = running }

abbrev without_child : Config
without_child = record {
  holder = in_lock.holder;
  phase = at in_lock.phase 0 torn;
  world = (close_locked working running).1;
}

abbrev with_child : Config
with_child = record {
  holder = without_child.holder;
  phase = at without_child.phase 0 (started after);
  world = record without_child.world { live = after.pid ∷ without_child.world.live };
}

abbrev recorded : Config
recorded = leave with_child 0 (record with_child.world { file = saved after })

replaced : Reaches working idle recorded
unfolding close_locked close_file remove_record kill_pid without
replaced =
    next
      (next (next (next here (enter idle 0 refl refl)) (tear in_lock 0 refl refl))
        (launch without_child 0 after refl refl))
      (write with_child 0 after refl)

Reaches-IsSafe_example : IsSafe recorded
Reaches-IsSafe_example = Reaches-IsSafe working dying ((λ j. refl), running-IsTracked) replaced
