-- ===== src/Base/Text.antt =====
-- Texts as lists of bytes.
use Prim.Native.Nat.{ℕ, zero, suc, ◌+◌, ◌-◌, ◌*◌, ◌/◌, ◌%◌, ◌≤◌, ◌<◌}
use Prim.Native.Char.{code}
use Prim.Native.String.{String}
use mathlib.Core.Path.{◌≡◌, ap}
use mathlib.Core.Logic.{◌≢◌}
use mathlib.Core.Bool.{Bool, true, false, ◌&&◌}
use mathlib.Core.List.{List, [], ◌∷◌}
use native.Mathlib.Omega.{arith}
use php_clickhouse.Base.Lists.{All}
use php_clickhouse.Base.Tests.{leb, ◌==◌, if◌then◌else◌}

abbrev pub Bytes : Type 0
Bytes = List ℕ

-- The code points of a literal, which are its bytes when it is ASCII.
abbrev pub codes : String → Bytes
codes String.[] = []
codes (String.◌∷◌ c s) = code c ∷ codes s

abbrev pub is_digit : ℕ → Bool
is_digit c = leb b'0' c && leb c b'9'

abbrev pub IsDigit : ℕ → Type 0
IsDigit c = (b'0' ≤ c) × (c ≤ b'9')

-- The number that decimal digits spell behind `n`.
abbrev pub digits_value : ℕ → Bytes → ℕ
digits_value n [] = n
digits_value n (c ∷ s) = digits_value (n * 10 + (c - b'0')) s

-- `%u` and `std::to_string` of the standard library: decimal digits, at most `fuel` of them.
decimal_digits : ℕ → ℕ → Bytes → Bytes
decimal_digits zero n out = out
decimal_digits (suc fuel) n out =
    let rest = decimal_digits fuel (n / 10) ((b'0' + n % 10) ∷ out) in if n == 0 then out else rest

-- `n + 1` digits are enough for `n`.
unfoldable pub format_decimal : ℕ → Bytes
unfolding decimal_digits
format_decimal n = if n == 0 then b'0' ∷ [] else decimal_digits (suc n) n []

decimal_digits-value :
    (fuel n : ℕ) (out : Bytes)
    → n < fuel
    → digits_value 0 (decimal_digits fuel n out) ≡ digits_value n out
unfolding decimal_digits
decimal_digits-value zero n out h = absurd (omega arith)
decimal_digits-value (suc fuel) n out h =
    let d = b'0' + n % 10 in
    let last : n / 10 * 10 + (d - b'0') ≡ n = omega arith in
    ground (arith, decimal_digits-value fuel (n / 10) (d ∷ out), ap (λ k. digits_value k out) last)

decimal_digits-All :
    (fuel n : ℕ) (out : Bytes) → All IsDigit out → All IsDigit (decimal_digits fuel n out)
unfolding decimal_digits
decimal_digits-All zero n out h = h
decimal_digits-All (suc fuel) n out h =
    ground (arith, decimal_digits-All fuel (n / 10) ((b'0' + n % 10) ∷ out))

decimal_digits-ne-nil : (fuel n : ℕ) (out : Bytes) → out ≢ [] → decimal_digits fuel n out ≢ []
unfolding decimal_digits
decimal_digits-ne-nil zero n out h = h
decimal_digits-ne-nil (suc fuel) n out h =
    ground (arith, decimal_digits-ne-nil fuel (n / 10) ((b'0' + n % 10) ∷ out))

pub format_decimal-value : (n : ℕ) → digits_value 0 (format_decimal n) ≡ n
unfolding format_decimal
format_decimal-value n = ground (arith, decimal_digits-value (suc n) n [])

pub format_decimal-All : (n : ℕ) → All IsDigit (format_decimal n)
unfolding format_decimal
format_decimal-All n = ground (arith, decimal_digits-All (suc n) n [])

pub format_decimal-ne-nil : (n : ℕ) → format_decimal n ≢ []
unfolding format_decimal
format_decimal-ne-nil n = ground (arith, decimal_digits-ne-nil n (n / 10) ((b'0' + n % 10) ∷ []))

abbrev pub bytes_eq : Bytes → Bytes → Bool
bytes_eq [] [] = true
bytes_eq (a ∷ s) (b ∷ t) = (a == b) && bytes_eq s t
bytes_eq _ _ = false
