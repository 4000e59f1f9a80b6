-- ===== src/Tunnel/Tracked.antt =====
-- internal/tunnel/state.go: no ssh child runs that the record does not name.
use w17ctl.Base.{
  ℤ, int_eq_iff, Bool, true, false, ◌&&◌, Option, none, some, List, [], ◌∷◌, ◌≡◌, refl, sym, ap,
  ◌∙◌, inl, inr, if◌then◌else◌, arith, In,
}
use w17ctl.Tunnel.{
  State, Record, absent, saved, corrupt, World, Os, Step, is_positive, without, kill_pid,
  close_locked, record_child, torn_down, replace, unremovable, unwritable, remove_record,
  close_file,
}

-- Every child that runs is the recorded one, and a recorded pid is one that a process can have.
abbrev pub IsTracked : World → Type 0
IsTracked w =
    (p : ℤ)
    → In p w.live
    → (st : State) × (w.file ≡ saved st) × (st.pid ≡ p) × (is_positive p ≡ true)

In-without : (p q : ℤ) (l : List ℤ) → In q (without p l) → In q l × ¬ (q ≡ p)
unfolding without
In-without p q [] h = absurd h
In-without p q (r ∷ l) h = ground (arith, In-without p q l, int_eq_iff r p)

-- Nothing runs.
abbrev pub IsQuiet : World → Type 0
IsQuiet w = (p : ℤ) → ¬ (In p w.live)

killed-IsQuiet :
    (os : Os) (st : State) (live : List ℤ)
    → ((p : ℤ) → os.dies p ≡ true)
    → ((p : ℤ) → In p live → (st.pid ≡ p) × (is_positive p ≡ true))
    → (p : ℤ) → ¬ (In p (kill_pid os st.pid live))
unfolding kill_pid
killed-IsQuiet os st live d h p = split (is_positive st.pid) refl
  where
    split :
        (b : Bool)
        → is_positive st.pid ≡ b
        → ¬ (In p (if b && os.dies st.pid then without st.pid live else live))
    split false e i = let (q, k) = h p i in absurd (ground (arith, ap is_positive q))
    split true e i =
        let (j, n) = In-without st.pid p live (ground (arith, d st.pid)) in n (sym (h p j).0)

module _ (os : Os) (d : (p : ℤ) → os.dies p ≡ true) where
  abbrev pub IsClosed : Step → Type 0
  IsClosed (e, w) = IsTracked w × (e ≡ none → IsQuiet w)

  IsQuiet-IsTracked : (w : World) → IsQuiet w → IsTracked w
  IsQuiet-IsTracked w q p i = absurd (q p i)

  remove_record-IsClosed :
      (w : World) (live : List ℤ) → ((p : ℤ) → ¬ (In p live)) → IsClosed (remove_record os w live)
  unfolding remove_record
  remove_record-IsClosed w live q = split os.removes
    where
      split :
          (b : Bool)
          → IsClosed (
              if b
              then (none, record { file = absent; live = live })
              else (some unremovable, record { file = w.file; live = live }))
      split true = ((λ p i. absurd (q p i)), λ e. q)
      split false = ((λ p i. absurd (q p i)), λ e. q)

  recorded_pid :
      (w : World) (st : State)
      → IsTracked w
      → w.file ≡ saved st
      → (p : ℤ) → In p w.live
      → (st.pid ≡ p) × (is_positive p ≡ true)
  recorded_pid w st h e p i =
      let (u, f, g, k) = h p i in (ap State.pid (of_saved u (sym e ∙ f)) ∙ g, k)
    where
      of_saved : (u : State) → saved st ≡ saved u → st ≡ u
      of_saved u q = ground arith

  close_file-IsClosed :
      (w : World) (f : Record) → IsTracked w → w.file ≡ f → IsClosed (close_file os w f)
  unfolding close_file
  close_file-IsClosed w corrupt h e = (h, λ q. absurd (ground arith))
  close_file-IsClosed w absent h e = (h, λ q p i. no_record (h p i))
    where
      no_record :
          {p : ℤ} → (st : State) × (w.file ≡ saved st) × (st.pid ≡ p) × (is_positive p ≡ true) → ⊥
      no_record (st, f, g, k) = ground arith
  close_file-IsClosed w (saved st) h e =
      remove_record-IsClosed w (kill_pid os st.pid w.live)
        (killed-IsQuiet os st w.live d (recorded_pid w st h e))

  -- Where a signal ends a child: closing keeps every running child recorded, and a close that works
  -- leaves none running.
  pub close_locked-IsTracked : (w : World) → IsTracked w → IsClosed (close_locked os w)
  unfolding close_locked
  close_locked-IsTracked w h = close_file-IsClosed w w.file h refl

  -- What is left of a replacement: after a success the child it started is the recorded one and the
  -- only one that runs.
  abbrev pub IsReplaced : Option State → Step → Type 0
  IsReplaced start (some e, w) = IsTracked w
  IsReplaced none (none, w) = ⊥
  IsReplaced (some st) (none, w) = (w.file ≡ saved st) × (w.live ≡ st.pid ∷ []) × IsTracked w

  record_child-IsReplaced :
      (st : State) (w : World)
      → os.writes ≡ true
      → is_positive st.pid ≡ true
      → IsQuiet w
      → IsReplaced (some st) (record_child os st w)
  unfolding record_child
  record_child-IsReplaced st w ok k q = split os.writes ok
    where
      only : (l : List ℤ) → ((p : ℤ) → ¬ (In p l)) → l ≡ []
      only [] n = refl
      only (p ∷ l) n = absurd (n p (inl refl))

      split :
          (b : Bool)
          → b ≡ true
          → IsReplaced (some st) (
              if b
              then (none, record { file = saved st; live = st.pid ∷ w.live })
              else (some unwritable, record { file = w.file; live = st.pid ∷ w.live }))
      split false e = absurd (ground arith)
      split true e = (
        refl,
        ap (λ l. st.pid ∷ l) (only w.live q),
        λ p i. elim i [ inl f ↦ (st, refl, sym f, ap is_positive f ∙ k) | inr j ↦ absurd (q p j) ],
      )

  torn_down-IsReplaced :
      (start : Option State) (r : Step)
      → os.writes ≡ true
      → ((st : State) → start ≡ some st → is_positive st.pid ≡ true)
      → IsClosed r
      → IsReplaced start (torn_down os start r)
  torn_down-IsReplaced start (some e, w) ok k (t, q) = t
  torn_down-IsReplaced none (none, w) ok k (t, q) = t
  torn_down-IsReplaced (some st) (none, w) ok k (t, q) =
      record_child-IsReplaced st w ok (k st refl) (q refl)

  -- Where a signal ends a child and the record can be written: replacing a tunnel keeps every running
  -- child recorded, whatever fails on the way, and a replacement that works leaves exactly the child it
  -- started, recorded.
  pub replace-IsReplaced :
      (start : Option State) (w : World)
      → os.writes ≡ true
      → ((st : State) → start ≡ some st → is_positive st.pid ≡ true)
      → IsTracked w
      → IsReplaced start (replace os start w)
  unfolding replace
  replace-IsReplaced start w ok k h =
      torn_down-IsReplaced start (close_locked os w) ok k (close_locked-IsTracked w h)
