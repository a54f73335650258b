-- ===== src/Received/Try.antt =====
-- The functions that try to read an argument as a given type: each returns what `*dest` is after it
-- and whether it succeeded.
use lopack.Prelude.{
  ℕ, Bool, true, false, not, [], Option, none, some, ◌%◌, ◌^◌, ◌==◌, if◌then◌else◌,
}
use lopack.Prelude.Text.{Text}
use lopack.Types.{Symbol}
use lopack.Outcome.{Result, returned, undetermined, and_return, and_result}
use lopack.Received.Reader.{Reader, Casts}
use lopack.Received.Read.{
  ReceivedMessage, is_bool, is_char, is_int32, is_int64, is_float, is_double, is_string, is_symbol,
  is_tag, as_bool, as_char, as_int32, as_int64, as_float, as_double, as_string, as_symbol,
}

-- `*dest = conversion(value); return true;`
abbrev pub stored {ℓ} : {A : Type ℓ} {B : Type 0} → Result A → (A → B) → Result (B × Bool)
stored r f = and_return r (λ a. (f a, true))

-- The same with a conversion that is undefined out of range.
abbrev pub stored_in_range {ℓ} :
    {A : Type ℓ} {B : Type 0} → Result A → (A → Option B) → Result (B × Bool)
stored_in_range r f =
    and_result r (λ a. elim (f a) [ none ↦ undetermined | some v ↦ returned (v, true) ])

-- (bool) of an integer, (int) of a bool
abbrev pub int_to_bool : ℕ → Bool
int_to_bool v = not (v == 0)

abbrev pub bool_to_int : Bool → ℕ
bool_to_int b = if b then 1 else 0

-- A C string that may be NULL.
abbrev pub text_of : Symbol → Text
text_of v = elim v.value [ none ↦ [] | some text ↦ text ]

module _ {W : Type 0} (lo : Reader W) (to : Casts) where
  unfoldable pub try_bool : Bool → ℕ → ReceivedMessage → W → Result (Bool × Bool)
  unfolding is_tag
  try_bool dest at msg w =
      if is_bool lo at msg w
      then stored (as_bool lo at msg w) (λ b. b)
      else (if is_int32 lo at msg w
          then stored (as_int32 lo at msg w) int_to_bool
          else (if is_int64 lo at msg w
              then stored (as_int64 lo at msg w) int_to_bool
              else (if is_float lo at msg w
                  then stored (as_float lo at msg w) to.float_to_bool
                  else (if is_double lo at msg w
                      then stored (as_double lo at msg w) to.double_to_bool
                      else returned (dest, false)))))

  unfoldable pub try_char : ℕ → ℕ → ReceivedMessage → W → Result (ℕ × Bool)
  unfolding is_tag
  try_char dest at msg w =
      if is_char lo at msg w
      then stored (as_char lo at msg w) (λ v. v)
      else (if is_int32 lo at msg w
          then stored (as_int32 lo at msg w) (λ v. v % 2 ^ 8)
          else (if is_int64 lo at msg w
              then stored (as_int64 lo at msg w) (λ v. v % 2 ^ 8)
              else returned (dest, false)))

  -- tryNumber(int *)
  unfoldable pub try_int : ℕ → ℕ → ReceivedMessage → W → Result (ℕ × Bool)
  unfolding is_tag
  try_int dest at msg w =
      if is_bool lo at msg w
      then stored (as_bool lo at msg w) bool_to_int
      else (if is_int32 lo at msg w
          then stored (as_int32 lo at msg w) (λ v. v)
          else (if is_int64 lo at msg w
              then stored (as_int64 lo at msg w) (λ v. v % 2 ^ 32)
              else (if is_float lo at msg w
                  then stored_in_range (as_float lo at msg w) to.float_to_int
                  else (if is_double lo at msg w
                      then stored_in_range (as_double lo at msg w) to.double_to_int
                      else returned (dest, false)))))

  -- tryNumber(unsigned int *)
  unfoldable pub try_uint : ℕ → ℕ → ReceivedMessage → W → Result (ℕ × Bool)
  unfolding is_tag
  try_uint dest at msg w =
      if is_bool lo at msg w
      then stored (as_bool lo at msg w) bool_to_int
      else (if is_int32 lo at msg w
          then stored (as_int32 lo at msg w) (λ v. v)
          else (if is_int64 lo at msg w
              then stored (as_int64 lo at msg w) (λ v. v % 2 ^ 32)
              else (if is_float lo at msg w
                  then stored_in_range (as_float lo at msg w) to.float_to_uint
                  else (if is_double lo at msg w
                      then stored_in_range (as_double lo at msg w) to.double_to_uint
                      else returned (dest, false)))))

  -- tryNumber(float *)
  unfoldable pub try_float : ℕ → ℕ → ReceivedMessage → W → Result (ℕ × Bool)
  unfolding is_tag
  try_float dest at msg w =
      if is_bool lo at msg w
      then stored (as_bool lo at msg w) to.bool_to_float
      else (if is_int32 lo at msg w
          then stored (as_int32 lo at msg w) to.int32_to_float
          else (if is_int64 lo at msg w
              then stored (as_int64 lo at msg w) to.int64_to_float
              else (if is_float lo at msg w
                  then stored (as_float lo at msg w) (λ v. v)
                  else (if is_double lo at msg w
                      then stored_in_range (as_double lo at msg w) to.double_to_float
                      else returned (dest, false)))))

  -- tryNumber(double *)
  unfoldable pub try_double : ℕ → ℕ → ReceivedMessage → W → Result (ℕ × Bool)
  unfolding is_tag
  try_double dest at msg w =
      if is_bool lo at msg w
      then stored (as_bool lo at msg w) to.bool_to_double
      else (if is_int32 lo at msg w
          then stored (as_int32 lo at msg w) to.int32_to_double
          else (if is_int64 lo at msg w
              then stored (as_int64 lo at msg w) to.int64_to_double
              else (if is_float lo at msg w
                  then stored (as_float lo at msg w) to.float_to_double
                  else (if is_double lo at msg w
                      then stored (as_double lo at msg w) (λ v. v)
                      else returned (dest, false)))))

module _ {W : Type 0} (lo : Reader W) where
  unfoldable pub try_string : Text → ℕ → ReceivedMessage → W → Result (Text × Bool)
  unfolding is_tag
  try_string dest at msg w =
      if is_string lo at msg w
      then stored (as_string lo at msg w) (λ v. v)
      else (if is_symbol lo at msg w
          then stored (as_symbol lo at msg w) text_of
          else returned (dest, false))
