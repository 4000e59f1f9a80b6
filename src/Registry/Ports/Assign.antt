-- ===== src/Registry/Ports/Assign.antt =====
-- What the scan for a free port and the loop that assigns them do.
use w17ctl.Base.{
  ℕ, zero, suc, ◌+◌, ◌≤◌, ◌<◌, Str, str_eq, str_eq_iff, ℤ, pos, int_eq_iff, Bool, true, false, none,
  some, List, [], ◌∷◌, ◌≡◌, refl, ◌⊎◌, inl, inr, sym, is_some, In, arith, Option-cases, Bool-cases,
}
use w17ctl.Base.Assoc.{Map, get, put, get-put}
use w17ctl.Registry.Ports.{contains, next_free, assign}

-- No two slots hold one port.
abbrev pub IsInjective : Map ℤ → Type 0
IsInjective m = (j k : Str) (v : ℤ) → get m j ≡ some v → get m k ≡ some v → j ≡ k

-- The set of used ports holds every port of the map.
abbrev pub Covers : List ℤ → Map ℤ → Type 0
Covers used m = (k : Str) (v : ℤ) → get m k ≡ some v → contains used v ≡ true

module _ (in_use : ℕ → Bool) where
  -- A port that nothing holds, from `next` upward.
  abbrev pub IsFree : List ℤ → ℕ → ℕ → Type 0
  IsFree used next n = (next ≤ n) × (contains used (pos n) ≡ false) × (in_use n ≡ false)

  pub next_free-IsFree :
      (fuel : ℕ) (used : List ℤ) (next n : ℕ)
      → next_free in_use fuel used next ≡ some n
      → IsFree used next n
  unfolding next_free
  next_free-IsFree zero used next n h = cc
  next_free-IsFree (suc fuel) used next n h =
      ground (arith, next_free-IsFree fuel used (suc next) n)

  -- The scan passes over no free port.
  pub next_free-least :
      (fuel : ℕ) (used : List ℤ) (next n m : ℕ)
      → next_free in_use fuel used next ≡ some n
      → IsFree used next m
      → n ≤ m
  unfolding next_free
  next_free-least zero used next n m h f = cc
  next_free-least (suc fuel) used next n m h (a, b, c) =
      ground (arith, next_free-least fuel used (suc next) n m)

  -- With a free port within reach of the fuel the scan ends.
  pub next_free-total :
      (fuel : ℕ) (used : List ℤ) (next m : ℕ)
      → IsFree used next m
      → m < next + fuel
      → is_some (next_free in_use fuel used next) ≡ true
  unfolding next_free
  next_free-total zero used next m (a, b, c) h = absurd (omega arith)
  next_free-total (suc fuel) used next m (a, b, c) h =
      ground (arith, next_free-total fuel used (suc next) m)

  -- Where no port is free the scan does not end on any fuel.
  pub next_free-none :
      (fuel : ℕ) (used : List ℤ) (next : ℕ)
      → ((n : ℕ) → next ≤ n → in_use n ≡ true)
      → next_free in_use fuel used next ≡ none
  unfolding next_free
  next_free-none zero used next h = refl
  next_free-none (suc fuel) used next h =
      ground (arith, h next, next_free-none fuel used (suc next) (λ n le. h n (omega arith)))

  -- What a run of the loop gives, from the ports it starts with.
  pub record Assigned (ks : List Str) (ports : Map ℤ) (used : List ℤ) (next : ℕ) (ports' : Map ℤ)
      : Type 0 where
    pub kept : (k : Str) (v : ℤ) → get ports k ≡ some v → get ports' k ≡ some v
    pub complete : (k : Str) → In k ks → is_some (get ports' k) ≡ true
    pub origin :
        (k : Str) (v : ℤ)
        → get ports' k ≡ some v
        → (get ports k ≡ some v) ⊎ (In k ks × (n : ℕ) × (v ≡ pos n) × IsFree used next n)
    pub injective : Covers used ports → IsInjective ports → IsInjective ports'

  module _ (k : Str) (ports : Map ℤ) (used : List ℤ) (next port : ℕ) (new : get ports k ≡ none)
      (free : IsFree used next port) where
    put-Covers : Covers used ports → Covers (pos port ∷ used) (put ports k (pos port))
    unfolding contains
    put-Covers c j v h =
        ground (arith, get-put ports k j (pos port), c j v, int_eq_iff (pos port) v)

    put-IsInjective : Covers used ports → IsInjective ports → IsInjective (put ports k (pos port))
    put-IsInjective c i j l v h g = ground (
      arith,
      get-put ports k j (pos port),
      get-put ports k l (pos port),
      i j l v,
      c j v,
      c l v,
      str_eq_iff k j,
      str_eq_iff k l,
    )

    Assigned-put :
        (ks : List Str) (ports' : Map ℤ)
        → Assigned ks (put ports k (pos port)) (pos port ∷ used) (suc port) ports'
        → Assigned (k ∷ ks) ports used next ports'
    unfolding contains
    Assigned-put ks ports' a = record {
      kept = λ j v h. ground (arith, get-put ports k j (pos port), a.kept j v, str_eq_iff k j);
      complete = λ j i. elim i [
        | inl e ↦ ground (arith, a.kept j (pos port), get-put ports k j (pos port), str_eq_iff k j)
        | inr t ↦ a.complete j t
      ];
      origin = λ j v h. elim (a.origin j v h) [
        | inl e ↦ elim (Bool-cases (str_eq k j)) [
          | inl same ↦ inr (
            inl (sym ((str_eq_iff k j).0 same)),
            port,
            ground (arith, get-put ports k j (pos port)),
            free,
          )
          | inr other ↦ inl (ground (arith, get-put ports k j (pos port)))
        ]
        | inr (t, n, e, f) ↦ inr (inr t, n, e, ground arith)
      ];
      injective = λ c i. a.injective (put-Covers c) (put-IsInjective c i);
    }

  pub assign-Assigned :
      (fuel : ℕ) (ks : List Str) (ports : Map ℤ) (used : List ℤ) (next : ℕ) (changed : Bool)
      (ports' : Map ℤ) (changed' : Bool)
      → assign in_use fuel ks ports used next changed ≡ some (ports', changed')
      → Assigned ks ports used next ports'
  unfolding assign
  assign-Assigned fuel [] ports used next changed ports' changed' h =
      let same : ports ≡ ports' = ground arith in
      rw (← same) (record {
        kept = λ k v e. e;
        complete = λ k i. absurd i;
        origin = λ k v e. inl e;
        injective = λ c i. i;
      })
  assign-Assigned fuel (k ∷ ks) ports used next changed ports' changed' h =
      elim (Option-cases (get ports k)) [
        | inl new ↦ elim (Option-cases (next_free in_use fuel used next)) [
          | inl stuck ↦ absurd (ground arith)
          | inr (port, found) ↦
              Assigned-put k ports used next port new (next_free-IsFree fuel used next port found)
                ks ports'
                (assign-Assigned fuel ks (put ports k (pos port)) (pos port ∷ used) (suc port) true
                  ports' changed' (ground arith))
        ]
        | inr (v, old) ↦
            let a =
              assign-Assigned fuel ks ports used next changed ports' changed' (ground arith) in
            record {
              kept = a.kept;
              complete = λ j i. elim i [ inl e ↦ rw (e, a.kept k v old) | inr t ↦ a.complete j t ];
              origin = λ j w e. elim (a.origin j w e) [
                | inl o ↦ inl o
                | inr (t, n, q, f) ↦ inr (inr t, n, q, f)
              ];
              injective = a.injective;
            }
      ]
