-- ===== src/Versions/Order.antt =====
-- `CompareVersions` is a total preorder, and counts candidates by their number.
use w17ctl.Base.{
  Str, str_compare, split, ℤ, int_compare, atoi, Ordering, Option, none, some, [], ◌∷◌, ◌≡◌, refl,
  ◌≢◌,
}
use w17ctl.Base.Order.{
  IsOrder, Chain, flip, flip-then_by, Chain-then_by, list_compare, list_compare-IsOrder,
  str_compare-IsOrder, int_compare-IsOrder,
}
use w17ctl.Versions.{
  compare_parsed, compare_identifier, compare_prerelease, compare_tail, compare_versions,
  split_version,
}

parsed_same : (o : Option ℤ) (a : Str) → compare_parsed o o a a ≡ Ordering.eq
parsed_same none a = str_compare-IsOrder.same a
parsed_same (some n) a = int_compare-IsOrder.same n

parsed_flipped :
    (o r : Option ℤ) (a b : Str) → compare_parsed r o b a ≡ flip (compare_parsed o r a b)
parsed_flipped none none a b = str_compare-IsOrder.flipped a b
parsed_flipped none (some n) a b = refl
parsed_flipped (some m) none a b = refl
parsed_flipped (some m) (some n) a b = int_compare-IsOrder.flipped m n

lt_first : (x : Ordering) → Chain Ordering.lt x Ordering.lt
lt_first Ordering.lt = refl
lt_first Ordering.eq = refl
lt_first Ordering.gt = tt

gt_first : (x : Ordering) → Chain Ordering.gt x Ordering.gt
gt_first Ordering.lt = tt
gt_first Ordering.eq = refl
gt_first Ordering.gt = refl

lt_second : (x : Ordering) → Chain x Ordering.lt Ordering.lt
lt_second Ordering.lt = refl
lt_second Ordering.eq = refl
lt_second Ordering.gt = tt

gt_second : (x : Ordering) → Chain x Ordering.gt Ordering.gt
gt_second Ordering.lt = tt
gt_second Ordering.eq = refl
gt_second Ordering.gt = refl

parsed-Chain :
    (o r s : Option ℤ) (a b c : Str)
    → Chain (compare_parsed o r a b) (compare_parsed r s b c) (compare_parsed o s a c)
parsed-Chain none none none a b c = str_compare-IsOrder.chain a b c
parsed-Chain none none (some n) a b c = gt_second (str_compare a b)
parsed-Chain none (some m) none a b c = tt
parsed-Chain none (some m) (some n) a b c = gt_first (int_compare m n)
parsed-Chain (some m) none none a b c = lt_first (str_compare b c)
parsed-Chain (some m) none (some n) a b c = tt
parsed-Chain (some m) (some n) none a b c = lt_second (int_compare m n)
parsed-Chain (some m) (some n) (some k) a b c = int_compare-IsOrder.chain m n k

pub compare_identifier-IsOrder : IsOrder compare_identifier
unfolding compare_identifier
compare_identifier-IsOrder = record {
  same = λ a. parsed_same (atoi a) a;
  flipped = λ a b. parsed_flipped (atoi a) (atoi b) a b;
  chain = λ a b c. parsed-Chain (atoi a) (atoi b) (atoi c) a b c;
}

parts-IsOrder : IsOrder (list_compare compare_identifier)
parts-IsOrder = list_compare-IsOrder compare_identifier compare_identifier-IsOrder

tail_same : (a : Str) → compare_tail a a ≡ Ordering.eq
unfolding compare_tail compare_prerelease
tail_same [] = refl
tail_same (c ∷ a) = parts-IsOrder.same (split (c ∷ a) b'.')

tail_flipped : (a b : Str) → compare_tail b a ≡ flip (compare_tail a b)
unfolding compare_tail compare_prerelease
tail_flipped [] [] = refl
tail_flipped [] (_ ∷ _) = refl
tail_flipped (_ ∷ _) [] = refl
tail_flipped (c ∷ a) (d ∷ b) = parts-IsOrder.flipped (split (c ∷ a) b'.') (split (d ∷ b) b'.')

tail-Chain : (a b c : Str) → Chain (compare_tail a b) (compare_tail b c) (compare_tail a c)
unfolding compare_tail compare_prerelease
tail-Chain [] [] [] = refl
tail-Chain [] [] (_ ∷ _) = refl
tail-Chain [] (_ ∷ _) [] = tt
tail-Chain [] (d ∷ b) (e ∷ c) =
    gt_first (list_compare compare_identifier (split (d ∷ b) b'.') (split (e ∷ c) b'.'))
tail-Chain (_ ∷ _) [] [] = refl
tail-Chain (_ ∷ _) [] (_ ∷ _) = tt
tail-Chain (c ∷ a) (d ∷ b) [] =
    lt_second (list_compare compare_identifier (split (c ∷ a) b'.') (split (d ∷ b) b'.'))
tail-Chain (c ∷ a) (d ∷ b) (e ∷ s) =
    parts-IsOrder.chain (split (c ∷ a) b'.') (split (d ∷ b) b'.') (split (e ∷ s) b'.')

triples-IsOrder : IsOrder (list_compare int_compare)
triples-IsOrder = list_compare-IsOrder int_compare int_compare-IsOrder

-- `CompareVersions` is a total preorder: a version equals itself, exchanging the two versions turns the
-- answer round, and the order is transitive - so that sorting by it is well defined.
pub compare_versions-IsOrder : IsOrder compare_versions
unfolding compare_versions
compare_versions-IsOrder = record {
  same = λ a. rw (triples-IsOrder.same (split_version a).0) (tail_same (split_version a).1);
  flipped = λ a b.
      let (na, pa) = split_version a in
      let (nb, pb) = split_version b in
      rw (
        triples-IsOrder.flipped na nb,
        tail_flipped pa pb,
        flip-then_by (list_compare int_compare na nb) (compare_tail pa pb),
      );
  chain = λ a b c.
      let (na, pa) = split_version a in
      let (nb, pb) = split_version b in
      let (nc, pc) = split_version c in
      Chain-then_by (list_compare int_compare na nb) (list_compare int_compare nb nc)
        (list_compare int_compare na nc) (compare_tail pa pb) (compare_tail pb pc)
        (compare_tail pa pc) (triples-IsOrder.chain na nb nc) (tail-Chain pa pb pc);
}

-- A release comes after every candidate for it: with the same numbers, a version without a prerelease
-- is above one with any prerelease.
pub release_above_candidates :
    (a b : Str)
    → (split_version a).0 ≡ (split_version b).0
    → (split_version a).1 ≡ []
    → (split_version b).1 ≢ []
    → compare_versions a b ≡ Ordering.gt
unfolding compare_versions compare_tail
release_above_candidates a b same released candidate =
    rw (same, triples-IsOrder.same (split_version b).0, released)
      (above (split_version b).1 candidate)
  where
    above : (s : Str) → s ≢ [] → compare_tail [] s ≡ Ordering.gt
    above [] h = absurd (h refl)
    above (c ∷ s) h = refl
