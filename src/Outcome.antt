-- ===== src/Outcome.antt =====
-- How a call ends: with a result, with one of the exceptions of src/lopack/OscSender.h,
-- src/lopack/OscTypes.h and src/lopack/OscReceiver.h, or by undefined behaviour of C++ (such as `back()` of
-- an empty vector). A command changes a state, and an exception keeps the state at its throw.
use lopack.Prelude.{◌≡◌, refl}
use lopack.Prelude.Text.{Text}

pub data Exception : Type 0 where
  send_exception bundle_not_in_progress message_in_progress message_not_in_progress : Exception
  type_exception arg_exception : Exception
  receive_exception : Text → Exception

-- A command's end.
pub data Outcome {ℓ} (S : Type ℓ) : Type ℓ where
  done : S → Outcome S
  thrown : Exception → S → Outcome S
  undefined : Outcome S

module _ {ℓ} {S : Type ℓ} where
  abbrev pub and_then : Outcome S → (S → Outcome S) → Outcome S
  and_then (done s) f = f s
  and_then (thrown e s) f = thrown e s
  and_then undefined f = undefined

  -- One command after the other.
  infixl 5 ◌>>◌
  abbrev pub ◌>>◌ : (S → Outcome S) → (S → Outcome S) → S → Outcome S
  ◌>>◌ f g s = and_then (f s) g

  pub and_then_assoc :
      (o : Outcome S) (f g : S → Outcome S)
      → and_then (and_then o f) g ≡ and_then o (λ s. and_then (f s) g)
  and_then_assoc (done s) f g = refl
  and_then_assoc (thrown e s) f g = refl
  and_then_assoc undefined f g = refl

-- The end of a member function that changes nothing.
pub data Result {ℓ} (A : Type ℓ) : Type ℓ where
  returned : A → Result A
  raised : Exception → Result A
  undetermined : Result A

module _ {ℓ κ} {A : Type ℓ} {B : Type κ} where
  -- A result that is used further.
  abbrev pub and_return : Result A → (A → B) → Result B
  and_return (returned a) f = returned (f a)
  and_return (raised e) f = raised e
  and_return undetermined f = undetermined

  -- A result that is used further, where that may fail too.
  abbrev pub and_result : Result A → (A → Result B) → Result B
  and_result (returned a) f = f a
  and_result (raised e) f = raised e
  and_result undetermined f = undetermined
