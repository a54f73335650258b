-- ===== src/Received/Signed.antt =====
-- Reading a 64-bit argument as an int.
use lopack.Prelude.{
  ℕ, true, List, some, ◌≡◌, arith, get_elem?, ◌⊎◌, inl, inr, ◌∙◌, [], ◌%◌, ◌^◌, ◌-◌, ◌<◌, ◌≤◌, ap,
}
use lopack.Prelude.Int.{signed32, signed64}
use lopack.Outcome.{returned, and_return}
use lopack.Liblo.{Arg}
use lopack.Received.Reader.{Reader, Casts}
use lopack.Received.Read.{ReceivedMessage}
use lopack.Received.Try.{try_int}
use lopack.Received.Contract.{Contents}
use lopack.Received.Conversion.{written, int_from}
use lopack.Received.Convert.{try_convert}

-- A 64-bit pattern whose number an int can hold.
abbrev pub FitsInt : ℕ → Type 0
FitsInt v = (v < 2 ^ 31) ⊎ ((2 ^ 64 - 2 ^ 31 ≤ v) × (v < 2 ^ 64))

narrow-eq : (v : ℕ) → FitsInt v → signed32 (v % 2 ^ 32) ≡ signed64 v
narrow-eq v (inl small) = ground arith
narrow-eq v (inr large) = ground arith

-- If the argument is an int64 whose number an int can hold, reading it as an int succeeds and gives
-- that number.
pub try_int-int64 :
    {W : Type 0} (lo : Reader W) (to : Casts) (msg : ReceivedMessage) (w : W) (args : List Arg)
    (at dest v : ℕ)
    → Contents lo msg.message w args
    → get_elem? args at ≡ some (Arg.int64 v)
    → FitsInt v
    → (d : ℕ) × (try_int lo to dest at msg w ≡ returned (d, true)) × (signed32 d ≡ signed64 v)
try_int-int64 lo to msg w args at dest v c e fits = (
  v % 2 ^ 32,
  (try_convert lo to msg w args at c true dest []).2
      ∙ ap (λ o. and_return (int_from to o) (written dest)) e,
  narrow-eq v fits,
)
