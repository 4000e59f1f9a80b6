-- ===== src/Base/Sort.antt =====
-- `sort.Slice` and `sort.Strings`: the result is ordered and holds the same elements. Where two
-- elements compare as equal Go fixes no order between them; the model keeps the order they had.
use Prim.Native.Nat.{Ordering}
use mathlib.Core.Path.{◌≡◌, refl}
use mathlib.Core.Logic.{◌≢◌, ◌⊎◌, inl, inr}
use mathlib.Core.Option.{Option, none, some}
use mathlib.Core.List.{List, [], ◌∷◌}
use native.Mathlib.Omega.{arith}
use w17ctl.Base.Bytes.{Str, str_compare}
use w17ctl.Base.Tests.{All, In}
use w17ctl.Base.Order.{Chain, IsOrder}

module _ {A : Type 0} (cmp : A → A → Ordering) where
  unfoldable pub insert : A → List A → List A
  insert x [] = x ∷ []
  insert x (y ∷ ys) = elim (cmp x y) [ Ordering.gt ↦ y ∷ insert x ys | _ ↦ x ∷ y ∷ ys ]

  unfoldable pub sort : List A → List A
  unfolding insert
  sort [] = []
  sort (x ∷ xs) = insert x (sort xs)

  -- `a` does not come after `b`.
  abbrev pub Leq : A → A → Type 0
  Leq a b = cmp a b ≢ Ordering.gt

  -- Every element does not come after those behind it.
  abbrev pub IsSorted : List A → Type 0
  IsSorted [] = Unit
  IsSorted (x ∷ xs) = All (Leq x) xs × IsSorted xs

-- `l[len(l)-1]`, where there is an element
unfoldable pub last {ℓ} : {A : Type ℓ} → List A → Option A
last [] = none
last (x ∷ []) = some x
last (x ∷ y ∷ ys) = last (y ∷ ys)

unfoldable pub sort_strings : List Str → List Str
unfolding sort
sort_strings = sort str_compare

module _ {A : Type 0} (cmp : A → A → Ordering) where
  pub In-insert : (a x : A) (l : List A) → In a (insert cmp x l) → (a ≡ x) ⊎ In a l
  unfolding insert
  In-insert a x [] h = h
  In-insert a x (y ∷ ys) h = ground (arith, In-insert a x ys)

  insert-In_self : (x : A) (l : List A) → In x (insert cmp x l)
  unfolding insert
  insert-In_self x [] = inl refl
  insert-In_self x (y ∷ ys) = ground (arith, insert-In_self x ys)

  insert-In : (a x : A) (l : List A) → In a l → In a (insert cmp x l)
  unfolding insert
  insert-In a x [] h = absurd h
  insert-In a x (y ∷ ys) h = ground (arith, insert-In a x ys)

  pub In-sort : (a : A) (l : List A) → In a (sort cmp l) → In a l
  unfolding sort
  In-sort a [] h = h
  In-sort a (x ∷ xs) h = elim (In-insert a x (sort cmp xs) h) [
    | inl e ↦ inl e
    | inr t ↦ inr (In-sort a xs t)
  ]

  pub sort-In : (a : A) (l : List A) → In a l → In a (sort cmp l)
  unfolding sort
  sort-In a [] h = h
  sort-In a (x ∷ xs) (inl e) = rw e (insert-In_self x (sort cmp xs))
  sort-In a (x ∷ xs) (inr t) = insert-In a x (sort cmp xs) (sort-In a xs t)

  pub In-last : (a : A) (l : List A) → last l ≡ some a → In a l
  unfolding last
  In-last a [] h = cc
  In-last a (x ∷ []) h = inl (ground arith)
  In-last a (x ∷ y ∷ ys) h = inr (In-last a (y ∷ ys) h)

  pub All-of_In : (P : A → Type 0) (l : List A) → ((a : A) → In a l → P a) → All P l
  All-of_In P [] h = tt
  All-of_In P (x ∷ xs) h = (h x (inl refl), All-of_In P xs (λ a m. h a (inr m)))

  pub In-All : (P : A → Type 0) (l : List A) → All P l → (a : A) → In a l → P a
  In-All P [] h a m = absurd m
  In-All P (x ∷ xs) (hx, hs) a (inl e) = rw e hx
  In-All P (x ∷ xs) (hx, hs) a (inr m) = In-All P xs hs a m

module _ {A : Type 0} (cmp : A → A → Ordering) (o : IsOrder cmp) where
  Chain-leq : (x y z : Ordering) → Chain x y z → x ≢ Ordering.gt → y ≢ Ordering.gt → z ≢ Ordering.gt
  Chain-leq Ordering.lt Ordering.lt z c h k = λ e. cc
  Chain-leq Ordering.lt Ordering.eq z c h k = λ e. cc
  Chain-leq Ordering.lt Ordering.gt z c h k = absurd (k refl)
  Chain-leq Ordering.eq y z c h k = λ e. ground arith
  Chain-leq Ordering.gt y z c h k = absurd (h refl)

  pub Leq-trans : (a b c : A) → Leq cmp a b → Leq cmp b c → Leq cmp a c
  Leq-trans a b c = Chain-leq (cmp a b) (cmp b c) (cmp a c) (o.chain a b c)

  pub Leq-refl : (a : A) → Leq cmp a a
  Leq-refl a e = cc (o.same a)

  Leq-of_gt : (a b : A) → cmp a b ≡ Ordering.gt → Leq cmp b a
  Leq-of_gt a b h e = ground (arith, o.flipped a b)

  insert-IsSorted : (x : A) (l : List A) → IsSorted cmp l → IsSorted cmp (insert cmp x l)
  unfolding insert
  insert-IsSorted x [] h = (tt, tt)
  insert-IsSorted x (y ∷ ys) (hy, hs) = place (cmp x y) refl (insert-IsSorted x ys hs)
    where
      place :
          (r : Ordering)
          → cmp x y ≡ r
          → IsSorted cmp (insert cmp x ys)
          → IsSorted cmp (elim r [ Ordering.gt ↦ y ∷ insert cmp x ys | _ ↦ x ∷ y ∷ ys ])
      place Ordering.gt e ih = (
        All-of_In cmp _ (insert cmp x ys) (λ a m. elim (In-insert cmp a x ys m) [
          | inl q ↦ rw q (Leq-of_gt x y e)
          | inr t ↦ In-All cmp _ ys hy a t
        ]),
        ih,
      )
      place Ordering.lt e ih = (
        (λ q. cc, All-of_In cmp _ ys (λ a m. Leq-trans x y a (λ q. cc) (In-All cmp _ ys hy a m))),
        (hy, hs),
      )
      place Ordering.eq e ih = (
        (λ q. cc, All-of_In cmp _ ys (λ a m. Leq-trans x y a (λ q. cc) (In-All cmp _ ys hy a m))),
        (hy, hs),
      )

  pub sort-IsSorted : (l : List A) → IsSorted cmp (sort cmp l)
  unfolding sort
  sort-IsSorted [] = tt
  sort-IsSorted (x ∷ xs) = insert-IsSorted x (sort cmp xs) (sort-IsSorted xs)

  IsSorted-last : (m : A) (l : List A) → IsSorted cmp l → last l ≡ some m → All (λ a. Leq cmp a m) l
  unfolding last
  IsSorted-last m [] h e = tt
  IsSorted-last m (x ∷ []) h e = (subst_last x m (ground arith), tt)
    where
      subst_last : (x m : A) → x ≡ m → Leq cmp x m
      subst_last x m q = rw q (Leq-refl m)
  IsSorted-last m (x ∷ y ∷ ys) (hx, hs) e =
      (In-All cmp _ (y ∷ ys) hx m (In-last cmp m (y ∷ ys) e), IsSorted-last m (y ∷ ys) hs e)

  -- The last element of a sorted list is one of the elements, and none comes after it.
  pub last-sort :
      (m : A) (l : List A) → last (sort cmp l) ≡ some m → In m l × ((a : A) → In a l → Leq cmp a m)
  last-sort m l e = (
    In-sort cmp m l (In-last cmp m (sort cmp l) e),
    λ a h.
        In-All cmp _ (sort cmp l) (IsSorted-last m (sort cmp l) (sort-IsSorted l) e) a
          (sort-In cmp a l h),
  )
