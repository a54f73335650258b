-- ===== src/Received/Conversion.antt =====
-- The value that each try function is to write, if there is one, or that the conversion to it is
-- undefined.
use lopack.Prelude.{ℕ, Bool, true, false, Option, none, some, ◌%◌, ◌^◌}
use lopack.Prelude.Text.{Text}
use lopack.Outcome.{Result, returned, undetermined}
use lopack.Liblo.{Arg}
use lopack.Received.Reader.{Casts}
use lopack.Received.Try.{int_to_bool}

-- `*dest` and the result, given the value to write, if there is one.
abbrev pub written : {A : Type 0} → A → Option A → A × Bool
written dest none = (dest, false)
written dest (some v) = (v, true)

-- A value out of range is undefined.
abbrev in_range : Option ℕ → Result (Option ℕ)
in_range none = undetermined
in_range (some v) = returned (some v)

abbrev pub char_from : Option Arg → Option ℕ
char_from (some (Arg.char v)) = some v
char_from (some (Arg.int32 v)) = some (v % 2 ^ 8)
char_from (some (Arg.int64 v)) = some (v % 2 ^ 8)
char_from _ = none

abbrev pub text_from : Option Arg → Option Text
text_from (some (Arg.string v)) = some v
text_from (some (Arg.symbol v)) = some v
text_from _ = none

module _ (to : Casts) where
  abbrev pub bool_from : Option Arg → Option Bool
  bool_from (some Arg.true_flag) = some true
  bool_from (some Arg.false_flag) = some false
  bool_from (some (Arg.int32 v)) = some (int_to_bool v)
  bool_from (some (Arg.int64 v)) = some (int_to_bool v)
  bool_from (some (Arg.float v)) = some (to.float_to_bool v)
  bool_from (some (Arg.double v)) = some (to.double_to_bool v)
  bool_from _ = none

  abbrev pub int_from : Option Arg → Result (Option ℕ)
  int_from (some Arg.true_flag) = returned (some 1)
  int_from (some Arg.false_flag) = returned (some 0)
  int_from (some (Arg.int32 v)) = returned (some v)
  int_from (some (Arg.int64 v)) = returned (some (v % 2 ^ 32))
  int_from (some (Arg.float v)) = in_range (to.float_to_int v)
  int_from (some (Arg.double v)) = in_range (to.double_to_int v)
  int_from _ = returned none

  abbrev pub uint_from : Option Arg → Result (Option ℕ)
  uint_from (some Arg.true_flag) = returned (some 1)
  uint_from (some Arg.false_flag) = returned (some 0)
  uint_from (some (Arg.int32 v)) = returned (some v)
  uint_from (some (Arg.int64 v)) = returned (some (v % 2 ^ 32))
  uint_from (some (Arg.float v)) = in_range (to.float_to_uint v)
  uint_from (some (Arg.double v)) = in_range (to.double_to_uint v)
  uint_from _ = returned none

  abbrev pub float_from : Option Arg → Result (Option ℕ)
  float_from (some Arg.true_flag) = returned (some (to.bool_to_float true))
  float_from (some Arg.false_flag) = returned (some (to.bool_to_float false))
  float_from (some (Arg.int32 v)) = returned (some (to.int32_to_float v))
  float_from (some (Arg.int64 v)) = returned (some (to.int64_to_float v))
  float_from (some (Arg.float v)) = returned (some v)
  float_from (some (Arg.double v)) = in_range (to.double_to_float v)
  float_from _ = returned none

  abbrev pub double_from : Option Arg → Option ℕ
  double_from (some Arg.true_flag) = some (to.bool_to_double true)
  double_from (some Arg.false_flag) = some (to.bool_to_double false)
  double_from (some (Arg.int32 v)) = some (to.int32_to_double v)
  double_from (some (Arg.int64 v)) = some (to.int64_to_double v)
  double_from (some (Arg.float v)) = some (to.float_to_double v)
  double_from (some (Arg.double v)) = some v
  double_from _ = none
