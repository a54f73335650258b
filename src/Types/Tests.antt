-- ===== src/Types/Tests.antt =====
-- Examples.
use lopack.Prelude.{ℕ, ◌+◌, ◌*◌, ◌/◌, ◌%◌, ◌^◌, ◌<◌, ◌≤◌, ◌≡◌, arith}
use lopack.Types.{TimeTag}
use lopack.Outcome.{returned, undetermined}
use lopack.Types.Time.{Doubles, IsAccurate, add, ticks, ticks-add}

-- Numbers are counted in thousandths, and divisors in units of 2^-32.
abbrev thousandths : Doubles
thousandths = record {
  Double = ℕ;
  of_nat = λ n. 1000 * n;
  add = λ x y. x + y;
  mul = λ x y. x * y / 1000;
  div = λ x y. x * 2 ^ 32 / y;
  thousandth = 1;
  tick = 1;
  truncate = λ x. x / 1000;
  timetag_diff = λ a b. 0;
}

thousandths-IsAccurate : IsAccurate thousandths
thousandths-IsAccurate = record {
  value = λ x. x * 1024 / 1000;
  truncate_value = λ x. omega arith;
  add_near = λ f x below small. (omega arith, omega arith);
  milliseconds_near = λ n below. (omega arith, omega arith);
}

abbrev early : TimeTag
early = record { sec = 10; frac = 500 }

ticks-add_example :
    (500 + 3250 % 1000 * 2 ^ 32 / 1000 + 1 < 2 ^ 32
      → 10 + 3250 / 1000 < 2 ^ 32
      → (s : TimeTag) × (add thousandths 3250 early ≡ returned s)
        × (ticks thousandths s ≤ ticks thousandths early + 3250 * 2 ^ 32 / 1000 + 1)
        × (ticks thousandths early + 3250 * 2 ^ 32 / 1000 ≤ ticks thousandths s + 1))
    × (2 ^ 32 + 1 ≤ 500 + 3250 % 1000 * 2 ^ 32 / 1000 → add thousandths 3250 early ≡ undetermined)
ticks-add_example = ticks-add thousandths thousandths-IsAccurate 3250 early (omega arith)
