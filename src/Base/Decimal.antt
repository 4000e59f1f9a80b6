-- ===== src/Base/Decimal.antt =====
-- `strconv.Atoi` reads back what `strconv.Itoa` prints.
use Prim.Native.Nat.{ℕ, zero, suc, ◌+◌, ◌/◌, ◌%◌, ◌≤◌, ◌<◌}
use mathlib.Core.Path.{◌≡◌, refl}
use mathlib.Core.Logic.{◌≢◌}
use mathlib.Core.Option.{some}
use mathlib.Core.List.{[], ◌∷◌}
use native.Mathlib.Omega.{arith}
use w17ctl.Base.Tests.{All}
use w17ctl.Base.Bytes.{Str}
use w17ctl.Base.Int.{pos, atoi, itoa, print_digits, digits_value, max_int}

-- Reading the digits that were printed before `acc` gives the number, and goes on with `acc`.
digits_value-print :
    (fuel n : ℕ) (acc : Str)
    → n < fuel
    → digits_value (print_digits fuel n acc) 0 ≡ digits_value acc n
unfolding print_digits digits_value
digits_value-print zero n acc h = absurd (omega arith)
digits_value-print (suc fuel) n acc h =
    ground (arith, digits_value-print fuel (n / 10) ((b'0' + n % 10) ∷ acc))

-- A decimal digit.
abbrev pub IsDigit : ℕ → Type 0
IsDigit c = (b'0' ≤ c) × (c ≤ b'9')

All-print : (fuel n : ℕ) (acc : Str) → All IsDigit acc → All IsDigit (print_digits fuel n acc)
unfolding print_digits
All-print zero n acc h = h
All-print (suc fuel) n acc h = ground (arith, All-print fuel (n / 10) ((b'0' + n % 10) ∷ acc))

print-ne-nil : (fuel n : ℕ) (acc : Str) → acc ≢ [] → print_digits fuel n acc ≢ []
unfolding print_digits
print-ne-nil zero n acc h = h
print-ne-nil (suc fuel) n acc h =
    ground (arith, print-ne-nil fuel (n / 10) ((b'0' + n % 10) ∷ acc) (λ e. cc))

pub itoa-All : (n : ℕ) → All IsDigit (itoa (pos n))
unfolding itoa
itoa-All n = All-print (suc n) n [] tt

pub itoa-ne-nil : (n : ℕ) → itoa (pos n) ≢ []
unfolding itoa print_digits
itoa-ne-nil n = ground (arith, print-ne-nil n (n / 10) ((b'0' + n % 10) ∷ []) (λ e. cc))

atoi_of_digits :
    (s : Str) (n : ℕ)
    → All IsDigit s
    → s ≢ []
    → digits_value s 0 ≡ some n
    → n ≤ max_int
    → atoi s ≡ some (pos n)
unfolding atoi
atoi_of_digits [] n h k e fits = absurd (k refl)
atoi_of_digits (c ∷ s) n (hc, hs) k e fits = ground arith

-- A number that an `int` holds is read back.
pub atoi-itoa : (n : ℕ) → n ≤ max_int → atoi (itoa (pos n)) ≡ some (pos n)
atoi-itoa n h =
    atoi_of_digits (itoa (pos n)) n (itoa-All n) (itoa-ne-nil n)
      (unfold itoa digits_value in digits_value-print (suc n) n [] (omega arith)) h
