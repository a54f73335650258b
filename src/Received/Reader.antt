-- ===== src/Received/Reader.antt =====
-- The functions of liblo that read a message or an address, over a state `W`, and the conversions
-- between C++'s number types that involve a float or a double (as bit patterns): `none` where the
-- value is out of the range of the type, which is undefined.
use lopack.Prelude.{ℕ, Bool, List, Option}
use lopack.Prelude.Text.{Text}
use lopack.Types.{MidiMessage, TimeTag}
use lopack.Liblo.{Ptr}

pub record Reader (W : Type 0) : Type 1 where
  pub message_incref : Ptr → W → W
  pub message_get_types : Ptr → W → Text
  pub message_get_argc : Ptr → W → ℕ
  pub message_get_timestamp : Ptr → W → TimeTag
  pub message_get_source : Ptr → W → Ptr
  -- a pointer to the union lo_arg, which is NULL for an argument without data, and the members behind
  -- one that is not
  pub LoArg : Type 0
  pub is_null : LoArg → Bool
  pub message_get_argv : Ptr → W → List LoArg
  pub c : LoArg → ℕ
  pub i : LoArg → ℕ
  pub h : LoArg → ℕ
  pub f : LoArg → ℕ
  pub d : LoArg → ℕ
  pub s : LoArg → Text
  pub sym : LoArg → Text
  pub m : LoArg → MidiMessage
  pub t : LoArg → TimeTag
  pub blob_dataptr : LoArg → List ℕ
  pub blob_datasize : LoArg → ℕ
  pub message_pp : Ptr → W → W
  pub arg_pp : ℕ → LoArg → W → W
  pub address_get_hostname : Ptr → W → Text
  pub address_get_port : Ptr → W → Text
  pub address_get_url : Ptr → W → Text

pub record Casts : Type 0 where
  pub float_to_bool : ℕ → Bool
  pub double_to_bool : ℕ → Bool
  pub float_to_int : ℕ → Option ℕ
  pub double_to_int : ℕ → Option ℕ
  pub float_to_uint : ℕ → Option ℕ
  pub double_to_uint : ℕ → Option ℕ
  pub bool_to_float : Bool → ℕ
  pub int32_to_float : ℕ → ℕ
  pub int64_to_float : ℕ → ℕ
  pub double_to_float : ℕ → Option ℕ
  pub bool_to_double : Bool → ℕ
  pub int32_to_double : ℕ → ℕ
  pub int64_to_double : ℕ → ℕ
  pub float_to_double : ℕ → ℕ
