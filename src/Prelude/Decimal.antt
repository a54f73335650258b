-- ===== src/Prelude/Decimal.antt =====
-- Decimal output of an unsigned number, as `std::stringstream << n` writes it.
use Prim.Native.Nat.{ℕ, zero, suc, ◌+◌, ◌-◌, ◌*◌, ◌/◌, ◌%◌, ◌<◌}
use mathlib.Core.Path.{◌≡◌, refl}
use mathlib.Core.Logic.{◌≢◌, inl, inr}
use mathlib.Core.List.{[], ◌∷◌, ◌++◌}
use native.Mathlib.Omega.{arith}
use lopack.Prelude.Tests.{ltb, if◌then◌else◌, Bool-cases}
use lopack.Prelude.Lists.{All-append}
use lopack.Prelude.Text.{Text, HasNoNul}

-- The fuel bounds the number of digits.
unfoldable pub decimal_digits : ℕ → ℕ → Text
decimal_digits zero n = []
decimal_digits (suc f) n =
    let front = decimal_digits f (n / 10) in
    if ltb n 10 then (b'0' + n) ∷ [] else front ++ (b'0' + n % 10) ∷ []

unfoldable pub decimal : ℕ → Text
unfolding decimal_digits
decimal n = decimal_digits (suc n) n

-- The number that a text of digits stands for, after the digits `acc`.
unfoldable pub decimal_value : ℕ → Text → ℕ
decimal_value acc [] = acc
decimal_value acc (c ∷ t) = decimal_value (acc * 10 + (c - b'0')) t

decimal_value-append :
    (acc : ℕ) (s t : Text) → decimal_value acc (s ++ t) ≡ decimal_value (decimal_value acc s) t
unfolding decimal_value
decimal_value-append acc [] t = refl
decimal_value-append acc (c ∷ s) t = decimal_value-append (acc * 10 + (c - b'0')) s t

digits_value : (f n : ℕ) → n < f → decimal_value 0 (decimal_digits f n) ≡ n
unfolding decimal_digits decimal_value
digits_value zero n h = elim h [ ]
digits_value (suc f) n h = ground (
  arith,
  decimal_value-append 0 (decimal_digits f (n / 10)) ((b'0' + n % 10) ∷ []),
  digits_value f (n / 10),
)

-- Reading the digits back gives the number.
pub decimal_value-decimal : (n : ℕ) → decimal_value 0 (decimal n) ≡ n
unfolding decimal
decimal_value-decimal n = digits_value (suc n) n (omega arith)

digits-HasNoNul : (f n : ℕ) → HasNoNul (decimal_digits f n)
unfolding decimal_digits
digits-HasNoNul zero n = tt
digits-HasNoNul (suc f) n = elim (Bool-cases (ltb n 10)) [
  | inl last ↦ rw last (omega arith)
  | inr more ↦ rw more (
      All-append (λ c. c ≢ 0) (decimal_digits f (n / 10)) ((b'0' + n % 10) ∷ [])
        (digits-HasNoNul f (n / 10)) (omega arith))
]

pub decimal-HasNoNul : (n : ℕ) → HasNoNul (decimal n)
unfolding decimal
decimal-HasNoNul n = digits-HasNoNul (suc n) n
