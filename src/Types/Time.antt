-- ===== src/Types/Time.antt =====
-- TimeTag of src/lopack/OscTypes.cpp: the clock and the arithmetic. liblo's clock and difference and
-- the machine's doubles are parameters.
use lopack.Prelude.{
  ℕ, Option, none, some, ◌+◌, ◌*◌, ◌/◌, ◌%◌, ◌^◌, ◌≤◌, ◌<◌, ◌≡◌, arith, ltb, if◌then◌else◌,
}
use lopack.Types.{TimeTag}
use lopack.Outcome.{Result, returned, undetermined}

pub record Doubles : Type 1 where
  pub Double : Type 0
  pub of_nat : ℕ → Double
  pub add : Double → Double → Double
  pub mul : Double → Double → Double
  pub div : Double → Double → Double
  -- the literals 0.001 and 0.00000000023283064365
  pub thousandth : Double
  pub tick : Double
  -- the part before the point of a value that is not negative
  pub truncate : Double → ℕ
  pub timetag_diff : TimeTag → TimeTag → Double

module _ (d : Doubles) where
  -- `tag.frac` as a double, plus the milliseconds below a second in units of 2^-32 seconds.
  abbrev pub fraction_sum : ℕ → TimeTag → d.Double
  fraction_sum ms t =
      d.add (d.of_nat t.frac) (d.div (d.mul (d.of_nat (ms % 1000)) d.thousandth) d.tick)

  -- The conversion to uint32_t is undefined out of its range.
  unfoldable pub to_uint32 : d.Double → Option ℕ
  to_uint32 x = if ltb (d.truncate x) (2 ^ 32) then some (d.truncate x) else none

  unfoldable pub add : ℕ → TimeTag → Result TimeTag
  unfolding to_uint32
  add ms t = elim (to_uint32 (fraction_sum ms t)) [
    | none ↦ undetermined
    | some frac ↦ returned (record { sec = (t.sec + ms / 1000) % 2 ^ 32; frac = frac })
  ]

  -- TimeTag(ms), where the clock reads `now`
  unfoldable pub time_tag_ahead : (now : TimeTag) → ℕ → Result TimeTag
  unfolding add
  time_tag_ahead now ms = add ms now

  -- `operator-` and diff(tag)
  unfoldable pub diff : TimeTag → TimeTag → d.Double
  diff a b = d.timetag_diff a b

  -- diff(), where the clock reads `now`
  unfoldable pub diff_now : (now : TimeTag) → TimeTag → d.Double
  diff_now now a = d.timetag_diff now a

  -- A point in time in units of 2^-32 seconds.
  abbrev pub ticks : TimeTag → ℕ
  ticks t = t.sec * 2 ^ 32 + t.frac

-- What the arithmetic of doubles does to the values that `add` meets. `value` is that of a double that
-- is not negative, in units of 1/1024, cut to a whole number. (The literals are not exact: a count of
-- milliseconds becomes 2^-32nds of a second with an error of less than 1/8.)
pub record IsAccurate (d : Doubles) : Type 0 where
  pub value : d.Double → ℕ
  pub truncate_value : (x : d.Double) → d.truncate x ≡ value x / 1024
  pub add_near :
      (f : ℕ) (x : d.Double)
      → f < 2 ^ 32
      → value x ≤ 2 ^ 42
      → (value (d.add (d.of_nat f) x) ≤ f * 1024 + value x + 2)
        × (f * 1024 + value x ≤ value (d.add (d.of_nat f) x) + 2)
  pub milliseconds_near :
      (n : ℕ)
      → n < 1000
      → let x = value (d.div (d.mul (d.of_nat n) d.thousandth) d.tick) in
        (x * 1000 ≤ n * 2 ^ 32 * 1024 + 128000) × (n * 2 ^ 32 * 1024 ≤ x * 1000 + 128000)

module _ (d : Doubles) (accurate : IsAccurate d) where
  -- The new fraction is the old one and the milliseconds below a second, but for at most one unit.
  fraction_sum-near :
      (ms : ℕ) (t : TimeTag)
      → t.frac < 2 ^ 32
      → let u = ms % 1000 * 2 ^ 32 / 1000 in
        (d.truncate (fraction_sum d ms t) ≤ t.frac + u + 1)
        × (t.frac + u ≤ d.truncate (fraction_sum d ms t) + 1)
  fraction_sum-near ms t whole =
      let x = d.div (d.mul (d.of_nat (ms % 1000)) d.thousandth) d.tick in
      let cut = accurate.truncate_value (fraction_sum d ms t) in
      let (above, below) = accurate.milliseconds_near (ms % 1000) (omega arith) in
      let (most, least) = accurate.add_near t.frac x whole (omega arith) in
      (omega arith, omega arith)

  -- For doubles that are accurate and a time tag with a fraction of 32 bits: `add` moves the time by
  -- `ms` milliseconds, but for at most one unit of 2^-32 seconds, while the seconds do not come to 2^32
  -- and the fractions stay a unit below a second. Where the fractions come to a second and a unit or
  -- more nothing is carried to `sec`: the conversion is undefined.
  pub ticks-add :
      (ms : ℕ) (t : TimeTag)
      → t.frac < 2 ^ 32
      → (t.frac + ms % 1000 * 2 ^ 32 / 1000 + 1 < 2 ^ 32
          → t.sec + ms / 1000 < 2 ^ 32
          → (s : TimeTag) × (add d ms t ≡ returned s)
            × (ticks d s ≤ ticks d t + ms * 2 ^ 32 / 1000 + 1)
            × (ticks d t + ms * 2 ^ 32 / 1000 ≤ ticks d s + 1))
        × (2 ^ 32 + 1 ≤ t.frac + ms % 1000 * 2 ^ 32 / 1000 → add d ms t ≡ undetermined)
  unfolding add to_uint32
  ticks-add ms t whole =
      let (most, least) = fraction_sum-near ms t whole in
      (
        λ fits below. (
          record { sec = t.sec + ms / 1000; frac = d.truncate (fraction_sum d ms t) },
          ground arith,
          omega arith,
          omega arith,
        ),
        λ over. ground arith,
      )
