-- ===== src/Base/Cutting.antt =====
-- What the functions of `strings` that cut a text give back of it.
use Prim.Native.Nat.{ℕ, ◌+◌}
use mathlib.Core.Path.{◌≡◌, refl, sym, ap, ◌∙◌}
use mathlib.Core.Bool.{Bool, true, false}
use mathlib.Core.List.{[], ◌∷◌, ◌++◌, append_assoc}
use native.Mathlib.Omega.{arith}
use w17ctl.Base.Tests.{if◌then◌else◌, length}
use w17ctl.Base.Bytes.{
  Str, has_prefix, has_suffix, has_byte, drop, rev, rev_onto, trim_prefix, trim_suffix, cut,
}

pub rev_onto-append : (s t acc : Str) → rev_onto (s ++ t) acc ≡ rev_onto t (rev_onto s acc)
rev_onto-append [] t acc = refl
rev_onto-append (c ∷ s) t acc = rev_onto-append s t (c ∷ acc)

pub rev_onto-rev_onto : (s acc : Str) → rev_onto (rev_onto s acc) [] ≡ rev_onto acc s
rev_onto-rev_onto [] acc = refl
rev_onto-rev_onto (c ∷ s) acc = rev_onto-rev_onto s (c ∷ acc)

pub rev-rev : (s : Str) → rev (rev s) ≡ s
unfolding rev
rev-rev s = rev_onto-rev_onto s []

rev_onto_acc : (s acc : Str) → rev_onto s acc ≡ rev_onto s [] ++ acc
rev_onto_acc [] acc = refl
rev_onto_acc (c ∷ s) acc =
    rev_onto_acc s (c ∷ acc)
    ∙ sym (append_assoc (rev_onto s []) (c ∷ []) acc)
    ∙ ap (λ z. z ++ acc) (sym (rev_onto_acc s (c ∷ [])))

pub rev-append : (s t : Str) → rev (s ++ t) ≡ rev t ++ rev s
unfolding rev
rev-append s t = rev_onto-append s t [] ∙ rev_onto_acc t (rev_onto s [])

pub has_prefix-split : (s p : Str) → has_prefix s p ≡ true → (r : Str) × (s ≡ p ++ r)
unfolding has_prefix
has_prefix-split s [] h = (s, refl)
has_prefix-split [] (d ∷ p) h = absurd (ground arith)
has_prefix-split (c ∷ s) (d ∷ p) h =
    let (r, e) = has_prefix-split s p (ground arith) in (r, ground (arith, e))

pub has_prefix-append : (p s : Str) → has_prefix (p ++ s) p ≡ true
unfolding has_prefix
has_prefix-append [] s = refl
has_prefix-append (c ∷ p) s = ground (arith, has_prefix-append p s)

drop-append : (p s : Str) → drop (length p) (p ++ s) ≡ s
unfolding drop
drop-append [] s = refl
drop-append (c ∷ p) s = drop-append p s

pub trim_prefix-append : (p s : Str) → trim_prefix (p ++ s) p ≡ s
unfolding trim_prefix
trim_prefix-append p s = split (has_prefix (p ++ s) p) (has_prefix-append p s)
  where
    split : (b : Bool) → b ≡ true → (if b then drop (length p) (p ++ s) else p ++ s) ≡ s
    split true e = drop-append p s
    split false e = cc

pub trim_prefix_other : (s p : Str) → has_prefix s p ≡ false → trim_prefix s p ≡ s
unfolding trim_prefix
trim_prefix_other s p h = ground (arith, h)

pub trim_suffix-append : (s p : Str) → trim_suffix (s ++ p) p ≡ s
unfolding trim_suffix
trim_suffix-append s p =
    ap (λ z. rev (trim_prefix z (rev p))) (rev-append s p)
    ∙ ap rev (trim_prefix-append (rev p) (rev s))
    ∙ rev-rev s

pub trim_suffix_other : (s p : Str) → has_suffix s p ≡ false → trim_suffix s p ≡ s
unfolding trim_suffix has_suffix
trim_suffix_other s p h = ap rev (trim_prefix_other (rev s) (rev p) h) ∙ rev-rev s

pub has_suffix-split : (s p : Str) → has_suffix s p ≡ true → (r : Str) × (s ≡ r ++ p)
unfolding has_suffix
has_suffix-split s p h =
    let (r, e) = has_prefix-split (rev s) (rev p) h in
    (rev r, sym (rev-rev s) ∙ ap rev e ∙ rev-append (rev p) r ∙ ap (λ z. rev r ++ z) (rev-rev p))

pub cut-found :
    (s : Str) (c : ℕ)
    → (cut s c).2 ≡ true
    → (s ≡ (cut s c).0 ++ c ∷ (cut s c).1) × (has_byte c (cut s c).0 ≡ false)
unfolding cut has_byte
cut-found [] c h = cc
cut-found (d ∷ s) c h = ground (arith, cut-found s c)

-- Without the separator, what stands before it is the whole text.
pub cut_whole : (s : Str) (c : ℕ) → (cut s c).2 ≡ false → (cut s c).0 ≡ s
unfolding cut
cut_whole [] c h = refl
cut_whole (d ∷ s) c h = ground (arith, cut_whole s c)

pub cut-append :
    (s t : Str) (c : ℕ)
    → has_byte c s ≡ false
    → ((cut (s ++ c ∷ t) c).0 ≡ s) × ((cut (s ++ c ∷ t) c).1 ≡ t) × ((cut (s ++ c ∷ t) c).2 ≡ true)
unfolding cut has_byte
cut-append [] t c h = ground arith
cut-append (d ∷ s) t c h = ground (arith, cut-append s t c)

pub length-append : (s t : Str) → length (s ++ t) ≡ length s + length t
length-append [] t = ground arith
length-append (c ∷ s) t = ground (arith, length-append s t)
