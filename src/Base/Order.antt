-- ===== src/Base/Order.antt =====
-- Three-way comparisons: when one is a total preorder, and that the lexicographic ones are.
use Prim.Native.Nat.{ℕ, compare, Ordering}
use mathlib.Core.Path.{◌≡◌, refl}
use mathlib.Core.List.{List, [], ◌∷◌}
use native.Mathlib.Omega.{arith}
use w17ctl.Base.Bytes.{Str, str_compare}
use w17ctl.Base.Int.{ℤ, pos, negsuc, int_compare}

abbrev pub flip : Ordering → Ordering
flip Ordering.lt = Ordering.gt
flip Ordering.eq = Ordering.eq
flip Ordering.gt = Ordering.lt

-- What comparing `a` with `b` and `b` with `c` says of `a` and `c`.
abbrev pub Chain : Ordering → Ordering → Ordering → Type 0
Chain Ordering.lt Ordering.lt z = z ≡ Ordering.lt
Chain Ordering.lt Ordering.eq z = z ≡ Ordering.lt
Chain Ordering.lt Ordering.gt z = Unit
Chain Ordering.eq y z = z ≡ y
Chain Ordering.gt Ordering.gt z = z ≡ Ordering.gt
Chain Ordering.gt Ordering.eq z = z ≡ Ordering.gt
Chain Ordering.gt Ordering.lt z = Unit

-- A total preorder as a comparison: reflexive, antisymmetric in the two arguments, transitive.
pub record IsOrder {ℓ} {A : Type ℓ} (cmp : A → A → Ordering) : Type ℓ where
  pub same : (a : A) → cmp a a ≡ Ordering.eq
  pub flipped : (a b : A) → cmp b a ≡ flip (cmp a b)
  pub chain : (a b c : A) → Chain (cmp a b) (cmp b c) (cmp a c)

-- The second comparison decides where the first finds no difference.
abbrev pub then_by : Ordering → Ordering → Ordering
then_by Ordering.lt y = Ordering.lt
then_by Ordering.eq y = y
then_by Ordering.gt y = Ordering.gt

pub flip-then_by : (x y : Ordering) → flip (then_by x y) ≡ then_by (flip x) (flip y)
flip-then_by x y = ground arith

pub Chain-then_by :
    (x y z x' y' z' : Ordering)
    → Chain x y z
    → Chain x' y' z'
    → Chain (then_by x x') (then_by y y') (then_by z z')
Chain-then_by Ordering.lt Ordering.lt z x' y' z' h k = ground arith
Chain-then_by Ordering.lt Ordering.eq z x' y' z' h k = ground arith
Chain-then_by Ordering.lt Ordering.gt z x' y' z' h k = tt
Chain-then_by Ordering.gt Ordering.lt z x' y' z' h k = tt
Chain-then_by Ordering.gt Ordering.eq z x' y' z' h k = ground arith
Chain-then_by Ordering.gt Ordering.gt z x' y' z' h k = ground arith
Chain-then_by Ordering.eq Ordering.lt z Ordering.lt y' z' h k = ground arith
Chain-then_by Ordering.eq Ordering.lt z Ordering.eq y' z' h k = ground arith
Chain-then_by Ordering.eq Ordering.lt z Ordering.gt y' z' h k = tt
Chain-then_by Ordering.eq Ordering.gt z Ordering.lt y' z' h k = tt
Chain-then_by Ordering.eq Ordering.gt z Ordering.eq y' z' h k = ground arith
Chain-then_by Ordering.eq Ordering.gt z Ordering.gt y' z' h k = ground arith
Chain-then_by Ordering.eq Ordering.eq z x' y' z' h k = subst_eq z h
  where
    subst_eq : (w : Ordering) → w ≡ Ordering.eq → Chain x' y' (then_by w z')
    subst_eq w e = rw e k

compare-Chain :
    (a b c : ℕ) (x y : Ordering) → compare a b ≡ x → compare b c ≡ y → Chain x y (compare a c)
compare-Chain a b c Ordering.lt Ordering.lt h k = ground arith
compare-Chain a b c Ordering.lt Ordering.eq h k = ground arith
compare-Chain a b c Ordering.lt Ordering.gt h k = tt
compare-Chain a b c Ordering.eq y h k = ground arith
compare-Chain a b c Ordering.gt Ordering.gt h k = ground arith
compare-Chain a b c Ordering.gt Ordering.eq h k = ground arith
compare-Chain a b c Ordering.gt Ordering.lt h k = tt

compare-Chain_back :
    (a b c : ℕ) (x y : Ordering) → compare b a ≡ x → compare c b ≡ y → Chain x y (compare c a)
compare-Chain_back a b c Ordering.lt Ordering.lt h k = ground arith
compare-Chain_back a b c Ordering.lt Ordering.eq h k = ground arith
compare-Chain_back a b c Ordering.lt Ordering.gt h k = tt
compare-Chain_back a b c Ordering.eq y h k = ground arith
compare-Chain_back a b c Ordering.gt Ordering.gt h k = ground arith
compare-Chain_back a b c Ordering.gt Ordering.eq h k = ground arith
compare-Chain_back a b c Ordering.gt Ordering.lt h k = tt

pub compare-IsOrder : IsOrder compare
compare-IsOrder = record {
  same = λ a. ground arith;
  flipped = λ a b. ground arith;
  chain = λ a b c. compare-Chain a b c _ _ refl refl;
}

int_compare-flip : (a b : ℤ) → int_compare b a ≡ flip (int_compare a b)
int_compare-flip (pos a) (pos b) = ground arith
int_compare-flip (pos a) (negsuc b) = refl
int_compare-flip (negsuc a) (pos b) = refl
int_compare-flip (negsuc a) (negsuc b) = ground arith

int_compare_same : (a : ℤ) → int_compare a a ≡ Ordering.eq
int_compare_same (pos a) = ground arith
int_compare_same (negsuc a) = ground arith

Chain-lt_any : (x : Ordering) → Chain Ordering.lt x Ordering.lt
Chain-lt_any Ordering.lt = refl
Chain-lt_any Ordering.eq = refl
Chain-lt_any Ordering.gt = tt

Chain-gt_any : (x : Ordering) → Chain Ordering.gt x Ordering.gt
Chain-gt_any Ordering.lt = tt
Chain-gt_any Ordering.eq = refl
Chain-gt_any Ordering.gt = refl

Chain-any_lt : (x : Ordering) → Chain x Ordering.lt Ordering.lt
Chain-any_lt Ordering.lt = refl
Chain-any_lt Ordering.eq = refl
Chain-any_lt Ordering.gt = tt

Chain-any_gt : (x : Ordering) → Chain x Ordering.gt Ordering.gt
Chain-any_gt Ordering.lt = tt
Chain-any_gt Ordering.eq = refl
Chain-any_gt Ordering.gt = refl

int_compare-Chain : (a b c : ℤ) → Chain (int_compare a b) (int_compare b c) (int_compare a c)
int_compare-Chain (pos a) (pos b) (pos c) = compare-IsOrder.chain a b c
int_compare-Chain (pos a) (pos b) (negsuc c) = Chain-any_gt (compare a b)
int_compare-Chain (pos a) (negsuc b) (pos c) = tt
int_compare-Chain (pos a) (negsuc b) (negsuc c) = Chain-gt_any (compare c b)
int_compare-Chain (negsuc a) (pos b) (pos c) = Chain-lt_any (compare b c)
int_compare-Chain (negsuc a) (pos b) (negsuc c) = tt
int_compare-Chain (negsuc a) (negsuc b) (pos c) = Chain-any_lt (compare b a)
int_compare-Chain (negsuc a) (negsuc b) (negsuc c) = compare-Chain_back a b c _ _ refl refl

pub int_compare-IsOrder : IsOrder int_compare
int_compare-IsOrder = record {
  same = int_compare_same;
  flipped = int_compare-flip;
  chain = int_compare-Chain;
}

-- A comparison of lists element by element, a proper prefix first.
unfoldable pub list_compare {ℓ} : {A : Type ℓ} → (A → A → Ordering) → List A → List A → Ordering
list_compare cmp [] [] = Ordering.eq
list_compare cmp [] (_ ∷ _) = Ordering.lt
list_compare cmp (_ ∷ _) [] = Ordering.gt
list_compare cmp (x ∷ xs) (y ∷ ys) = then_by (cmp x y) (list_compare cmp xs ys)

module _ {ℓ} {A : Type ℓ} (cmp : A → A → Ordering) (o : IsOrder cmp) where
  list_same : (l : List A) → list_compare cmp l l ≡ Ordering.eq
  unfolding list_compare
  list_same [] = refl
  list_same (x ∷ xs) = rw (o.same x) (list_same xs)

  list_flipped : (l m : List A) → list_compare cmp m l ≡ flip (list_compare cmp l m)
  unfolding list_compare
  list_flipped [] [] = refl
  list_flipped [] (_ ∷ _) = refl
  list_flipped (_ ∷ _) [] = refl
  list_flipped (x ∷ xs) (y ∷ ys) =
      rw (o.flipped x y, list_flipped xs ys, flip-then_by (cmp x y) (list_compare cmp xs ys))

  list-Chain :
      (l m n : List A) → Chain (list_compare cmp l m) (list_compare cmp m n) (list_compare cmp l n)
  unfolding list_compare
  list-Chain [] [] [] = refl
  list-Chain [] [] (_ ∷ _) = refl
  list-Chain [] (_ ∷ _) [] = tt
  list-Chain [] (y ∷ ys) (z ∷ zs) = Chain-lt_any (then_by (cmp y z) (list_compare cmp ys zs))
  list-Chain (_ ∷ _) [] [] = refl
  list-Chain (_ ∷ _) [] (_ ∷ _) = tt
  list-Chain (x ∷ xs) (y ∷ ys) [] = Chain-any_gt (then_by (cmp x y) (list_compare cmp xs ys))
  list-Chain (x ∷ xs) (y ∷ ys) (z ∷ zs) =
      Chain-then_by (cmp x y) (cmp y z) (cmp x z) (list_compare cmp xs ys) (list_compare cmp ys zs)
        (list_compare cmp xs zs) (o.chain x y z) (list-Chain xs ys zs)

  pub list_compare-IsOrder : IsOrder (list_compare cmp)
  list_compare-IsOrder = record { same = list_same; flipped = list_flipped; chain = list-Chain }

str_compare-eq-list_compare : (a b : Str) → str_compare a b ≡ list_compare compare a b
unfolding str_compare list_compare
str_compare-eq-list_compare [] [] = refl
str_compare-eq-list_compare [] (_ ∷ _) = refl
str_compare-eq-list_compare (_ ∷ _) [] = refl
str_compare-eq-list_compare (x ∷ xs) (y ∷ ys) = ground (arith, str_compare-eq-list_compare xs ys)

pub str_compare-IsOrder : IsOrder str_compare
str_compare-IsOrder =
    let o = list_compare-IsOrder compare compare-IsOrder in
    record {
      same = λ a. rw str_compare-eq-list_compare (o.same a);
      flipped = λ a b. simp str_compare-eq-list_compare (o.flipped a b);
      chain = λ a b c. simp str_compare-eq-list_compare (o.chain a b c);
    }

-- The byte order separates different texts.
pub str_compare-eq : (a b : Str) → str_compare a b ≡ Ordering.eq → a ≡ b
unfolding str_compare
str_compare-eq [] [] h = refl
str_compare-eq [] (_ ∷ _) h = cc
str_compare-eq (_ ∷ _) [] h = cc
str_compare-eq (x ∷ xs) (y ∷ ys) h = ground (arith, str_compare-eq xs ys)
