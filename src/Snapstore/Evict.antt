-- ===== src/Snapstore/Evict.antt =====
-- internal/snapstore/snapstore.go: `Branches`, `Remove` and `Evict`, on the scratch tree: its
-- directories by name, each with its modification time. What removing one answers is a parameter.
use w17ctl.Base.{
  ℕ, zero, suc, ◌-◌, ◌≤◌, Str, str_eq_iff, ℤ, pos, negsuc, int_compare, leb, length, Ordering, Bool,
  true, false, Option, none, some, List, [], ◌∷◌, map, ◌≡◌, refl, sym, ap, ◌∙◌, subst, ◌≢◌, ◌⊎◌,
  inl, inr, if◌then◌else◌, arith, In,
}
use w17ctl.Base.Assoc.{Map, get, delete, keys, get-delete}
use w17ctl.Base.Order.{IsOrder, Chain, int_compare-IsOrder}
use w17ctl.Base.Sort.{insert, sort, sort_strings, IsSorted, Leq, sort-IsSorted, sort-In, In-All}
use w17ctl.Snapstore.Keys.{branch_key, path_unescape}

abbrev pub Tree : Type 0
Tree = Map ℤ

-- the entries whose name decodes
unfoldable pub decoded : List Str → List Str
decoded [] = []
decoded (n ∷ ns) =
    let rest = decoded ns in elim (path_unescape n) [ none ↦ rest | some b ↦ b ∷ rest ]

-- `Branches()`
unfoldable pub branches : Tree → List Str
unfolding decoded
branches t = sort_strings (decoded (keys t))

abbrev pub root_time : Tree → Option Str → Option ℤ
root_time t none = none
root_time t (some key) = get t key

-- `aged`
pub record Aged : Type 0 where
  pub branch : Str
  pub time : ℤ

unfoldable pub with_age : Tree → List Str → List Aged
with_age t [] = []
with_age t (b ∷ bs) =
    let rest = with_age t bs in
    elim (root_time t (branch_key b)) [
      | none ↦ rest
      | some m ↦ record { branch = b; time = m } ∷ rest
    ]

abbrev pub newest_first : Aged → Aged → Ordering
newest_first a b = int_compare b.time a.time

unfoldable pub skip {ℓ} : {A : Type ℓ} → ℕ → List A → List A
skip zero l = l
skip (suc n) [] = []
skip (suc n) (x ∷ l) = skip n l

-- what stands past the cut
unfoldable pub victims : ℕ → Tree → List Aged
unfolding branches with_age skip
victims keep t =
    if leb (length (branches t)) keep
    then []
    else skip keep (sort newest_first (with_age t (branches t)))

abbrev pub remove_key : Tree → Option Str → Tree
remove_key t none = t
remove_key t (some key) = delete t key

-- `Remove(branch)`
unfoldable pub remove_branch : Tree → Str → Tree
remove_branch t b = remove_key t (branch_key b)

abbrev pub Eviction : Type 0
Eviction = List Str × Option Str × Tree

-- one turn: an error stops the loop with what is there
abbrev onward : Str → Option Str → Tree → Eviction → Eviction
onward b (some e) t r = ([], some e, t)
onward b none t (dropped, e, after) = (b ∷ dropped, e, after)

-- the loop that removes
unfoldable pub drop_all : (Str → Option Str) → Tree → List Aged → Eviction
unfolding remove_branch
drop_all fails t [] = ([], none, t)
drop_all fails t (a ∷ more) =
    onward a.branch (fails a.branch) t (drop_all fails (remove_branch t a.branch) more)

abbrev finished : Eviction → Eviction
finished (dropped, none, t) = (sort_strings dropped, none, t)
finished (dropped, some e, t) = (dropped, some e, t)

-- `Evict(keep)`
unfoldable pub evict : (Str → Option Str) → ℤ → Tree → Eviction
unfolding victims drop_all
evict fails (negsuc n) t = ([], none, t)
evict fails (pos zero) t = ([], none, t)
evict fails (pos (suc n)) t = finished (drop_all fails t (victims (suc n) t))

Chain-swap : (x y z : Ordering) → Chain x y z → Chain y x z
Chain-swap Ordering.lt Ordering.lt z h = h
Chain-swap Ordering.lt Ordering.eq z h = h
Chain-swap Ordering.lt Ordering.gt z h = h
Chain-swap Ordering.eq Ordering.lt z h = h
Chain-swap Ordering.eq Ordering.eq z h = h
Chain-swap Ordering.eq Ordering.gt z h = h
Chain-swap Ordering.gt Ordering.lt z h = h
Chain-swap Ordering.gt Ordering.eq z h = h
Chain-swap Ordering.gt Ordering.gt z h = h

newest_first-IsOrder : IsOrder newest_first
newest_first-IsOrder = record {
  same = λ a. int_compare-IsOrder.same a.time;
  flipped = λ a b. int_compare-IsOrder.flipped b.time a.time;
  chain = λ a b c.
      Chain-swap (int_compare c.time b.time) (int_compare b.time a.time) (int_compare c.time a.time)
        (int_compare-IsOrder.chain c.time b.time a.time);
}

module _ {A : Type 0} where
  skip-In : (n : ℕ) (a : A) (l : List A) → In a (skip n l) → In a l
  unfolding skip
  skip-In zero a l h = h
  skip-In (suc n) a [] h = absurd h
  skip-In (suc n) a (x ∷ l) h = inr (skip-In n a l h)

  length-skip : (n : ℕ) (l : List A) → length (skip n l) ≡ length l - n
  unfolding skip
  length-skip zero l = ground arith
  length-skip (suc n) [] = ground arith
  length-skip (suc n) (x ∷ l) = ground (arith, length-skip n l)

  module _ (cmp : A → A → Ordering) where
    skip-Leq :
        (n : ℕ) (l : List A) (a d : A)
        → IsSorted cmp l
        → In a l
        → In d (skip n l)
        → In a (skip n l) ⊎ Leq cmp a d
    unfolding skip
    skip-Leq zero l a d s i j = inl i
    skip-Leq (suc n) [] a d s i j = absurd i
    skip-Leq (suc n) (x ∷ l) a d (h, s) (inl e) j =
        inr (subst (λ z. Leq cmp z d) (sym e) (In-All cmp (Leq cmp x) l h d (skip-In n d l j)))
    skip-Leq (suc n) (x ∷ l) a d (h, s) (inr t) j = skip-Leq n l a d s t j

    length-insert : (x : A) (l : List A) → length (insert cmp x l) ≡ suc (length l)
    unfolding insert
    length-insert x [] = refl
    length-insert x (y ∷ ys) = ground (arith, length-insert x ys)

    length-sort : (l : List A) → length (sort cmp l) ≡ length l
    unfolding sort
    length-sort [] = refl
    length-sort (x ∷ xs) = ground (arith, length-sort xs, length-insert x (sort cmp xs))

-- The key of a victim.
abbrev pub IsVictim : List Aged → Str → Type 0
IsVictim vs k = (v : Aged) × In v vs × (branch_key v.branch ≡ some k)

module _ (fails : Str → Option Str) where
  -- What is left of a removal that reports no error.
  abbrev IsDropped : Tree → List Aged → Eviction → Type 0
  IsDropped t vs (dropped, e, after) =
      e ≡ none
      → (dropped ≡ map (λ v. v.branch) vs)
        × ((k : Str) → IsVictim vs k → get after k ≡ none)
        × ((k : Str) → ¬ (IsVictim vs k) → get after k ≡ get t k)

  gone_at : (t : Tree) (o : Option Str) (k : Str) → o ≡ some k → get (remove_key t o) k ≡ none
  gone_at t none k e = absurd (ground arith)
  gone_at t (some j) k e = ground (arith, get-delete t j k, str_eq_iff j k)

  kept_at :
      (t : Tree) (o : Option Str) (k : Str) → ¬ (o ≡ some k) → get (remove_key t o) k ≡ get t k
  kept_at t none k n = refl
  kept_at t (some j) k n =
      ground (arith, get-delete t j k, str_eq_iff j k, λ (q : j ≡ k). n (ap some q))

  stays_gone :
      (t : Tree) (o : Option Str) (k : Str) → get t k ≡ none → get (remove_key t o) k ≡ none
  stays_gone t none k e = e
  stays_gone t (some j) k e = ground (arith, get-delete t j k)

  onward-gone :
      (b : Str) (o : Option Str) (t : Tree) (r : Eviction) (k : Str)
      → get t k ≡ none
      → get r.2 k ≡ none
      → get (onward b o t r).2 k ≡ none
  onward-gone b (some e) t r k x y = x
  onward-gone b none t (d, e, u) k x y = y

  drop_all-gone :
      (t : Tree) (vs : List Aged) (k : Str) → get t k ≡ none → get (drop_all fails t vs).2 k ≡ none
  unfolding drop_all remove_branch
  drop_all-gone t [] k e = e
  drop_all-gone t (v ∷ vs) k e =
      let u = remove_key t (branch_key v.branch) in
      onward-gone v.branch (fails v.branch) t (drop_all fails u vs) k e
        (drop_all-gone u vs k (stays_gone t (branch_key v.branch) k e))

  onward-IsDropped :
      (t : Tree) (v : Aged) (vs : List Aged) (o : Option Str) (r : Eviction)
      → ((k : Str) → get (remove_key t (branch_key v.branch)) k ≡ none → get r.2 k ≡ none)
      → IsDropped (remove_key t (branch_key v.branch)) vs r
      → IsDropped t (v ∷ vs) (onward v.branch o t r)
  onward-IsDropped t v vs (some x) r g h e = absurd (clash e)
    where
      clash : ◌≡◌ {A = Option Str} (some x) none → ⊥
      clash q = ground arith
  onward-IsDropped t v vs none (d, x, after) g h e =
      let (names, gone, same) = h e in
      (
        ap (λ l. v.branch ∷ l) names,
        λ k (w, i, q). elim i [
          | inl f ↦
              g k (gone_at t (branch_key v.branch) k (ap (λ z. branch_key z.branch) (sym f) ∙ q))
          | inr j ↦ gone k (w, j, q)
        ],
        λ k n.
            same k (λ (w, i, q). n (w, inr i, q))
            ∙ kept_at t (branch_key v.branch) k (λ q. n (v, inl refl, q)),
      )

  drop_all-IsDropped : (t : Tree) (vs : List Aged) → IsDropped t vs (drop_all fails t vs)
  unfolding drop_all remove_branch
  drop_all-IsDropped t [] = λ e. (refl, (λ k (v, i, q). absurd i), λ k n. refl)
  drop_all-IsDropped t (v ∷ vs) =
      let u = remove_key t (branch_key v.branch) in
      onward-IsDropped t v vs (fails v.branch) (drop_all fails u vs) (drop_all-gone u vs)
        (drop_all-IsDropped u vs)

-- Which branches an eviction removes: never one that was saved later than another one it leaves, and
-- as many as there are above the budget.
abbrev pub IsOldest : ℕ → List Aged → List Aged → Type 0
IsOldest keep aged vs =
    ((a v : Aged) → In a aged → In v vs → In a vs ⊎ (int_compare a.time v.time ≢ Ordering.lt))
    × (length vs ≡ length aged - keep)

length-with_age : (t : Tree) (bs : List Str) → length (with_age t bs) ≤ length bs
unfolding with_age
length-with_age t [] = ground arith
length-with_age t (b ∷ bs) = ground (arith, length-with_age t bs)

victims-IsOldest : (keep : ℕ) (t : Tree) → IsOldest keep (with_age t (branches t)) (victims keep t)
unfolding victims
victims-IsOldest keep t = split (leb (length (branches t)) keep) refl
  where
    aged : List Aged
    aged = with_age t (branches t)

    split :
        (b : Bool)
        → leb (length (branches t)) keep ≡ b
        → IsOldest keep aged (if b then [] else skip keep (sort newest_first aged))
    split true e = ((λ a v i j. absurd j), ground (arith, length-with_age t (branches t)))
    split false e = (
      λ a v i j.
          elim (skip-Leq newest_first keep (sort newest_first aged) a v
            (sort-IsSorted newest_first newest_first-IsOrder aged) (sort-In newest_first a aged i)
            j) [
              | inl k ↦ inl k
              | inr l ↦ inr (λ q. l (ground (arith, int_compare-IsOrder.flipped a.time v.time)))
            ],
      length-skip keep (sort newest_first aged)
          ∙ ap (λ n. n - keep) (length-sort newest_first aged),
    )

finished-IsDropped :
    (fails : Str → Option Str) (t : Tree) (vs : List Aged) (r : Eviction)
    → IsDropped fails t vs r
    → (finished r).1 ≡ none
    → ((finished r).0 ≡ sort_strings (map (λ v. v.branch) vs))
      × ((k : Str) → IsVictim vs k → get (finished r).2 k ≡ none)
      × ((k : Str) → ¬ (IsVictim vs k) → get (finished r).2 k ≡ get t k)
finished-IsDropped fails t vs (d, none, u) h e =
    let (names, gone, same) = h refl in (ap sort_strings names, gone, same)
finished-IsDropped fails t vs (d, some x, u) h e = absurd (clash e)
  where
    clash : ◌≡◌ {A = Option Str} (some x) none → ⊥
    clash q = ground arith

-- An eviction with a budget, where every removal works: it answers the names of its victims, sorted;
-- the victims' directories are gone and every other one is as it was; no branch that it leaves was
-- saved before a victim; and the victims are as many as the aged branches exceed the budget by.
pub evict-IsOldest :
    (fails : Str → Option Str) (n : ℕ) (t : Tree)
    → (evict fails (pos (suc n)) t).1 ≡ none
    → let vs = victims (suc n) t in
      let r = evict fails (pos (suc n)) t in
      (r.0 ≡ sort_strings (map (λ v. v.branch) vs))
      × ((k : Str) → IsVictim vs k → get r.2 k ≡ none)
      × ((k : Str) → ¬ (IsVictim vs k) → get r.2 k ≡ get t k)
      × IsOldest (suc n) (with_age t (branches t)) vs
unfolding evict
evict-IsOldest fails n t e =
    let vs = victims (suc n) t in
    let (names, gone, same) =
      finished-IsDropped fails t vs (drop_all fails t vs) (drop_all-IsDropped fails t vs) e in
    (names, gone, same, victims-IsOldest (suc n) t)
