-- ===== src/Base/Int.antt =====
-- Go's `int` as an integer, with the conversions of `strconv`.
use Prim.Native.Nat.{ℕ, zero, suc, ◌+◌, ◌-◌, ◌*◌, ◌/◌, ◌%◌, ◌^◌, compare, Ordering}
use mathlib.Core.Path.{◌≡◌}
use mathlib.Core.Logic.{◌↔◌}
use mathlib.Core.Bool.{Bool, true, false, ◌&&◌}
use mathlib.Core.Option.{Option, none, some}
use mathlib.Core.List.{[], ◌∷◌}
use native.Mathlib.Omega.{arith}
use w17ctl.Base.Tests.{ltb, leb, ◌==◌, if◌then◌else◌}
use w17ctl.Base.Bytes.{Str}

-- `negsuc n` is -(n + 1).
pub data ℤ : Type 0 where
  pos : ℕ → ℤ
  negsuc : ℕ → ℤ

abbrev pub int_compare : ℤ → ℤ → Ordering
int_compare (pos a) (pos b) = compare a b
int_compare (pos _) (negsuc _) = Ordering.gt
int_compare (negsuc _) (pos _) = Ordering.lt
int_compare (negsuc a) (negsuc b) = compare b a

abbrev pub int_eq : ℤ → ℤ → Bool
int_eq a b = elim (int_compare a b) [ Ordering.eq ↦ true | _ ↦ false ]

pub int_eq_iff : (a b : ℤ) → (int_eq a b ≡ true) ↔ (a ≡ b)
int_eq_iff (pos a) (pos b) = ground arith
int_eq_iff (pos a) (negsuc b) = ground arith
int_eq_iff (negsuc a) (pos b) = ground arith
int_eq_iff (negsuc a) (negsuc b) = ground arith

abbrev pub is_digit : ℕ → Bool
is_digit c = leb b'0' c && leb c b'9'

-- the value of a run of digits; `none` on any other byte
unfoldable pub digits_value : Str → ℕ → Option ℕ
digits_value [] n = some n
digits_value (c ∷ s) n =
    let rest = digits_value s (n * 10 + (c - b'0')) in if is_digit c then rest else none

abbrev pub max_int : ℕ
max_int = 2 ^ 63 - 1

-- at least one digit
unfoldable pub digits : Str → Option ℕ
unfolding digits_value
digits [] = none
digits (c ∷ s) = digits_value (c ∷ s) 0

abbrev pub checked_pos : Option ℕ → Option ℤ
checked_pos none = none
checked_pos (some n) = if leb n max_int then some (pos n) else none

abbrev pub checked_neg : Option ℕ → Option ℤ
checked_neg none = none
checked_neg (some zero) = some (pos 0)
checked_neg (some (suc n)) = if leb n max_int then some (negsuc n) else none

-- `strconv.Atoi`: an optional sign and decimal digits; `none` is the error, which a value outside
-- the 64-bit range is too.
unfoldable pub atoi : Str → Option ℤ
unfolding digits
atoi [] = none
atoi (c ∷ s) =
    if c == b'+'
    then checked_pos (digits s)
    else if c == b'-'
    then checked_neg (digits s)
    else checked_pos (digits (c ∷ s))

-- `fuel` bounds the number of digits; `n + 1` is enough.
unfoldable pub print_digits : ℕ → ℕ → Str → Str
print_digits zero n acc = acc
print_digits (suc fuel) n acc =
    let rest = print_digits fuel (n / 10) ((b'0' + n % 10) ∷ acc) in
    if ltb n 10 then (b'0' + n) ∷ acc else rest

-- `strconv.Itoa`
unfoldable pub itoa : ℤ → Str
unfolding print_digits
itoa (pos n) = print_digits (suc n) n []
itoa (negsuc n) = b'-' ∷ print_digits (suc (suc n)) (suc n) []
