-- ===== src/Tunnel/Lock.antt =====
-- internal/tunnel/state.go: any number of concurrent `Replace` and `Close` calls on one project, cut
-- into the steps between which another process may run. The file lock lets one caller in.
use w17ctl.Base.{
  ℕ, ℤ, ◌==◌, ==_iff, true, false, Option, none, some, ◌∷◌, ◌≡◌, refl, sym, ap, ◌∙◌, subst, ◌≢◌,
  inl, inr, if◌then◌else◌, arith, In, Bool-cases,
}
use w17ctl.Tunnel.{State, saved, World, Os, close_locked, is_positive}
use w17ctl.Tunnel.Tracked.{IsTracked, IsQuiet, close_locked-IsTracked}

-- Where a caller stands: outside, in with the lock, behind the teardown, behind the launch.
pub data Phase : Type 0 where
  outside : Phase
  entered : Phase
  torn : Phase
  started : State → Phase

pub record Config : Type 0 where
  pub holder : Option ℕ
  pub phase : ℕ → Phase
  pub world : World

abbrev pub at : (ℕ → Phase) → ℕ → Phase → ℕ → Phase
at f i p j = if j == i then p else f j

abbrev pub leave : Config → ℕ → World → Config
leave c i w = record { holder = none; phase = at c.phase i outside; world = w }

-- One step of caller `i`. A call leaves, and gives the lock back, behind an error, behind the teardown
-- (a `Close`, or a `Replace` whose launch fails) or once the record is written.
pub data Move (os : Os) : Config → Config → Type 0 where
  enter :
      (c : Config) (i : ℕ)
      → c.holder ≡ none
      → c.phase i ≡ outside
      → Move os c (record { holder = some i; phase = at c.phase i entered; world = c.world })
  tear :
      (c : Config) (i : ℕ)
      → c.phase i ≡ entered
      → (close_locked os c.world).0 ≡ none
      → Move os c (record {
        holder = c.holder;
        phase = at c.phase i torn;
        world = (close_locked os c.world).1;
      })
  fail :
      (c : Config) (i : ℕ) → c.phase i ≡ entered → Move os c (leave c i (close_locked os c.world).1)
  stop : (c : Config) (i : ℕ) → c.phase i ≡ torn → Move os c (leave c i c.world)
  launch :
      (c : Config) (i : ℕ) (st : State)
      → c.phase i ≡ torn
      → is_positive st.pid ≡ true
      → Move os c (record {
        holder = c.holder;
        phase = at c.phase i (started st);
        world = record c.world { live = st.pid ∷ c.world.live };
      })
  write :
      (c : Config) (i : ℕ) (st : State)
      → c.phase i ≡ started st
      → Move os c (leave c i (record c.world { file = saved st }))

pub data Reaches (os : Os) (c : Config) : Config → Type 0 where
  here : Reaches os c c
  next : {d e : Config} → Reaches os c d → Move os d e → Reaches os c e

-- What holds of the world in the phase of the caller that has the lock.
abbrev pub IsInPhase : Phase → World → Type 0
IsInPhase outside w = ⊥
IsInPhase entered w = IsTracked w
IsInPhase torn w = IsQuiet w
IsInPhase (started st) w = ((p : ℤ) → In p w.live → p ≡ st.pid) × (is_positive st.pid ≡ true)

-- One caller at most is inside, the one with the lock; without one every child is recorded.
abbrev pub IsHeld : Option ℕ → Config → Type 0
IsHeld none c = ((j : ℕ) → c.phase j ≡ outside) × IsTracked c.world
IsHeld (some i) c = ((j : ℕ) → c.phase j ≢ outside → j ≡ i) × IsInPhase (c.phase i) c.world

abbrev pub IsSafe : Config → Type 0
IsSafe c = IsHeld c.holder c

at_self : (f : ℕ → Phase) (i : ℕ) (p : Phase) → at f i p i ≡ p
at_self f i p = ground arith

at_other : (f : ℕ → Phase) (i j : ℕ) (p : Phase) → j ≢ i → at f i p j ≡ f j
at_other f i j p n = ground arith

-- Whoever is inside has the lock, alone, with the world as its phase says.
abbrev IsAlone : Option ℕ → Config → ℕ → Phase → Type 0
IsAlone h c i p = (h ≡ some i) × ((j : ℕ) → c.phase j ≢ outside → j ≡ i) × IsInPhase p c.world

inside :
    (c : Config) (i : ℕ) (p : Phase) (h : Option ℕ)
    → IsHeld h c
    → c.phase i ≡ p
    → p ≢ outside
    → IsAlone h c i p
inside c i p none (out, t) e n = absurd (n (sym e ∙ out i))
inside c i p (some k) (only, w) e n =
    let q = only i (λ z. n (sym e ∙ z)) in
    (
      ap some (sym q),
      λ j m. only j m ∙ sym q,
      subst (λ z. IsInPhase z c.world) (ap c.phase (sym q) ∙ e) w,
    )

stays :
    (c : Config) (i : ℕ) (p : Phase) (w : World) (h : Option ℕ)
    → h ≡ some i
    → ((j : ℕ) → c.phase j ≢ outside → j ≡ i)
    → IsInPhase p w
    → IsHeld h (record { holder = h; phase = at c.phase i p; world = w })
stays c i p w none e only b = absurd (ground arith)
stays c i p w (some k) e only b = (others, subst (λ z. IsInPhase z w) (sym phase_at) b)
  where
    same : k ≡ i
    same = ground arith

    phase_at : at c.phase i p k ≡ p
    phase_at = ap (at c.phase i p) same ∙ at_self c.phase i p

    others : (j : ℕ) → at c.phase i p j ≢ outside → j ≡ k
    others j m = elim (Bool-cases (j == i)) [
      | inl q ↦ (==_iff j i).0 q ∙ sym same
      | inr q ↦ only j (λ z. m (at_other c.phase i j p (λ r. ground arith) ∙ z)) ∙ sym same
    ]

leaves :
    (c : Config) (i : ℕ) (w : World)
    → ((j : ℕ) → c.phase j ≢ outside → j ≡ i)
    → IsTracked w
    → IsSafe (leave c i w)
leaves c i w only t = (
  λ j. elim (Bool-cases (j == i)) [
    | inl q ↦ ground arith
    | inr q ↦ at_other c.phase i j outside (λ r. ground arith) ∙ still j (c.phase j) refl q
  ],
  t,
)
  where
    still : (j : ℕ) (p : Phase) → c.phase j ≡ p → (j == i) ≡ false → c.phase j ≡ outside
    still j outside e q = e
    still j entered e q = absurd (ground (arith, only j (λ z. ground (arith, sym e ∙ z))))
    still j torn e q = absurd (ground (arith, only j (λ z. ground (arith, sym e ∙ z))))
    still j (started st) e q = absurd (ground (arith, only j (λ z. ground (arith, sym e ∙ z))))

module _ (os : Os) (d : (p : ℤ) → os.dies p ≡ true) where
  Move-IsSafe : {c e : Config} → IsSafe c → Move os c e → IsSafe e
  Move-IsSafe s (enter c i q o) = entering c.holder q s
    where
      entering :
          (h : Option ℕ)
          → h ≡ none
          → IsHeld h c
          → IsHeld
              (some i)
              (record { holder = some i; phase = at c.phase i entered; world = c.world })
      entering none z (out, t) = (
        (λ j m. elim (Bool-cases (j == i)) [
          | inl r ↦ (==_iff j i).0 r
          | inr r ↦ absurd (m (at_other c.phase i j entered (λ k. ground arith) ∙ out j))
        ]),
        subst (λ z. IsInPhase z c.world) (sym (at_self c.phase i entered)) t,
      )
      entering (some k) z m = absurd (ground arith)
  Move-IsSafe s (tear c i q ok) =
      let (h, only, t) = inside c i entered c.holder s q (λ z. ground arith) in
      stays c i torn (close_locked os c.world).1 c.holder h only
        ((close_locked-IsTracked os d c.world t).1 ok)
  Move-IsSafe s (fail c i q) =
      let (h, only, t) = inside c i entered c.holder s q (λ z. ground arith) in
      leaves c i (close_locked os c.world).1 only (close_locked-IsTracked os d c.world t).0
  Move-IsSafe s (stop c i q) =
      let (h, only, t) = inside c i torn c.holder s q (λ z. ground arith) in
      leaves c i c.world only (λ p j. absurd (t p j))
  Move-IsSafe s (launch c i st q k) =
      let (h, only, t) = inside c i torn c.holder s q (λ z. ground arith) in
      stays c i (started st) (record c.world { live = st.pid ∷ c.world.live }) c.holder h only
        ((λ p j. elim j [ inl f ↦ f | inr g ↦ absurd (t p g) ]), k)
  Move-IsSafe s (write c i st q) =
      let (h, only, (own, k)) = inside c i (started st) c.holder s q (λ z. ground arith) in
      leaves c i (record c.world { file = saved st }) only
        (λ p j. (st, refl, sym (own p j), ap is_positive (own p j) ∙ k))

  -- Where a signal ends a child and a started child's record can be written: however any number of
  -- callers interleave, from a state in which nobody is inside and every running child is recorded, one
  -- caller at most is inside at any time, and whenever the lock is free every running child is recorded.
  pub Reaches-IsSafe : {c e : Config} → IsSafe c → Reaches os c e → IsSafe e
  Reaches-IsSafe s here = s
  Reaches-IsSafe s (next r m) = Move-IsSafe (Reaches-IsSafe s r) m
