-- ===== src/Versions/Candidates.antt =====
-- The candidates `rc.N` of one release.
use w17ctl.Base.{
  ℕ, ◌≤◌, Str, codes, str_compare, split, pos, itoa, atoi, max_int, Ordering, [], ◌∷◌, ◌++◌, ◌≡◌,
  refl, compare, All, arith,
}
use w17ctl.Base.Decimal.{atoi-itoa, itoa-All, IsDigit}
use w17ctl.Base.Order.{then_by, list_compare}
use w17ctl.Versions.{compare_identifier, compare_prerelease}

split_digits : (s : Str) → All IsDigit s → split s b'.' ≡ s ∷ []
unfolding split
split_digits [] h = refl
split_digits (c ∷ s) (hc, hs) = ground (arith, split_digits s hs)

then_eq : (x : Ordering) → then_by x Ordering.eq ≡ x
then_eq Ordering.lt = refl
then_eq Ordering.eq = refl
then_eq Ordering.gt = refl

compare_rc :
    (m n : ℕ)
    → m ≤ max_int
    → n ≤ max_int
    → compare_identifier (itoa (pos m)) (itoa (pos n)) ≡ compare m n
unfolding compare_identifier
compare_rc m n h k = rw (atoi-itoa m h, atoi-itoa n k)

rc_same : compare_identifier (codes "rc") (codes "rc") ≡ Ordering.eq
unfolding compare_identifier atoi str_compare
rc_same = refl

split_rc : (m : ℕ) → split (codes "rc." ++ itoa (pos m)) b'.' ≡ codes "rc" ∷ itoa (pos m) ∷ []
split_rc m = unfold split in rw (split_digits (itoa (pos m)) (itoa-All m))

-- Candidates count: for M and N up to the greatest `int`, `rc.M` and `rc.N` compare as the numbers M and N
-- do - `rc.10` comes after `rc.2`.
pub compare_prerelease_rc :
    (m n : ℕ)
    → m ≤ max_int
    → n ≤ max_int
    → compare_prerelease (codes "rc." ++ itoa (pos m)) (codes "rc." ++ itoa (pos n)) ≡ compare m n
unfolding compare_prerelease list_compare
compare_prerelease_rc m n h k =
    rw (split_rc m, split_rc n) (rw (rc_same, compare_rc m n h k, then_eq))
