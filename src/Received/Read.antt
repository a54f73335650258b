-- ===== src/Received/Read.antt =====
-- The message's address, types and arguments, and the checked accessors.
use lopack.Prelude.{
  ℕ, Bool, true, not, ◌&&◌, ◌||◌, none, some, get_or, get_elem?, ltb, ◌==◌, if◌then◌else◌,
}
use lopack.Prelude.Text.{Text, text_eq}
use lopack.Types.{MidiMessage, TimeTag, Symbol, Blob, midi_message}
use lopack.Outcome.{
  Result, returned, raised, undetermined, type_exception, arg_exception, and_result,
}
use lopack.Liblo.{Ptr}
use lopack.Received.Reader.{Reader}

pub record ReceivedMessage : Type 0 where
  pub address_pattern : Text
  pub message : Ptr

pub record MessageSource : Type 0 where
  pub address : Ptr

-- TimeTag(lo_timetag timetag): `tag = tag` assigns the new object's member to itself, so it keeps
-- what the memory held before.
unfoldable pub timetag_of_lo : (before : TimeTag) → (timetag : TimeTag) → TimeTag
timetag_of_lo before timetag = before

module _ {W : Type 0} (lo : Reader W) where
  -- ReceivedMessage(addressPattern, message)
  unfoldable pub receive : Text → Ptr → W → ReceivedMessage × W
  receive pattern p w = (record { address_pattern = pattern; message = p }, lo.message_incref p w)

  unfoldable pub types : ReceivedMessage → W → Text
  types msg w = lo.message_get_types msg.message w

  unfoldable pub check_address_and_types : Text → Text → ReceivedMessage → W → Bool
  unfolding types
  check_address_and_types address tags msg w =
      text_eq address msg.address_pattern && text_eq tags (types msg w)

  unfoldable pub num_args : ReceivedMessage → W → ℕ
  num_args msg w = lo.message_get_argc msg.message w

  -- The string's element past its end reads as NUL.
  unfoldable pub type_tag : ℕ → ReceivedMessage → W → ℕ
  unfolding types num_args
  type_tag at msg w = if ltb at (num_args msg w) then get_or (types msg w) at 0 else b'*'

  unfoldable pub get_time_tag : (before : TimeTag) → ReceivedMessage → W → TimeTag
  unfolding timetag_of_lo
  get_time_tag before msg w = timetag_of_lo before (lo.message_get_timestamp msg.message w)

  unfoldable pub is_tag : ℕ → ℕ → ReceivedMessage → W → Bool
  unfolding type_tag
  is_tag tag at msg w = type_tag at msg w == tag

  abbrev pub is_bool : ℕ → ReceivedMessage → W → Bool
  is_bool at msg w = is_tag b'T' at msg w || is_tag b'F' at msg w

  abbrev pub is_char : ℕ → ReceivedMessage → W → Bool
  is_char = is_tag b'c'

  abbrev pub is_nil : ℕ → ReceivedMessage → W → Bool
  is_nil = is_tag b'N'

  abbrev pub is_infinitum : ℕ → ReceivedMessage → W → Bool
  is_infinitum = is_tag b'I'

  abbrev pub is_int : ℕ → ReceivedMessage → W → Bool
  is_int at msg w = is_tag b'i' at msg w || is_tag b'h' at msg w

  abbrev pub is_int32 : ℕ → ReceivedMessage → W → Bool
  is_int32 = is_tag b'i'

  abbrev pub is_int64 : ℕ → ReceivedMessage → W → Bool
  is_int64 = is_tag b'h'

  abbrev pub is_float : ℕ → ReceivedMessage → W → Bool
  is_float = is_tag b'f'

  abbrev pub is_double : ℕ → ReceivedMessage → W → Bool
  is_double = is_tag b'd'

  abbrev pub is_text : ℕ → ReceivedMessage → W → Bool
  is_text at msg w = is_tag b's' at msg w || is_tag b'S' at msg w

  abbrev pub is_string : ℕ → ReceivedMessage → W → Bool
  is_string = is_tag b's'

  abbrev pub is_symbol : ℕ → ReceivedMessage → W → Bool
  is_symbol = is_tag b'S'

  abbrev pub is_midi_message : ℕ → ReceivedMessage → W → Bool
  is_midi_message = is_tag b'm'

  abbrev pub is_time_tag : ℕ → ReceivedMessage → W → Bool
  is_time_tag = is_tag b't'

  abbrev pub is_blob : ℕ → ReceivedMessage → W → Bool
  is_blob = is_tag b'b'

  -- An array that is shorter than `num_args` is read out of bounds.
  unfoldable pub arg : ℕ → ReceivedMessage → W → Result lo.LoArg
  unfolding num_args
  arg at msg w =
      if ltb at (num_args msg w)
      then elim (get_elem? (lo.message_get_argv msg.message w) at) [
        | none ↦ undetermined
        | some a ↦ returned a
      ]
      else raised arg_exception

  -- What is read through the pointer, which must not be NULL.
  abbrev through {ℓ} : {A : Type ℓ} → (lo.LoArg → A) → lo.LoArg → Result A
  through member a = if lo.is_null a then undetermined else returned (member a)

  -- The check that the accessors share: `member` of the argument, if `ok`.
  abbrev checked {ℓ} : {A : Type ℓ} → Bool → (lo.LoArg → A) → ℕ → ReceivedMessage → W → Result A
  checked ok member at msg w =
      if not ok then raised type_exception else and_result (arg at msg w) (through member)

  unfoldable pub as_bool : ℕ → ReceivedMessage → W → Result Bool
  unfolding is_tag
  as_bool at msg w =
      if not (is_bool at msg w) then raised type_exception else returned (type_tag at msg w == b'T')

  unfoldable pub as_char : ℕ → ReceivedMessage → W → Result ℕ
  unfolding is_tag arg
  as_char at msg w = checked (is_char at msg w) lo.c at msg w

  unfoldable pub as_int32 : ℕ → ReceivedMessage → W → Result ℕ
  unfolding is_tag arg
  as_int32 at msg w = checked (is_int32 at msg w) lo.i at msg w

  unfoldable pub as_int64 : ℕ → ReceivedMessage → W → Result ℕ
  unfolding is_tag arg
  as_int64 at msg w = checked (is_int64 at msg w) lo.h at msg w

  unfoldable pub as_float : ℕ → ReceivedMessage → W → Result ℕ
  unfolding is_tag arg
  as_float at msg w = checked (is_float at msg w) lo.f at msg w

  unfoldable pub as_double : ℕ → ReceivedMessage → W → Result ℕ
  unfolding is_tag arg
  as_double at msg w = checked (is_double at msg w) lo.d at msg w

  unfoldable pub as_string : ℕ → ReceivedMessage → W → Result Text
  unfolding is_tag arg
  as_string at msg w = checked (is_string at msg w) lo.s at msg w

  -- The bytes are reversed.
  unfoldable pub as_midi_message : ℕ → ReceivedMessage → W → Result MidiMessage
  unfolding is_tag arg midi_message
  as_midi_message at msg w =
      checked (is_midi_message at msg w) (λ a. midi_message (lo.m a) true) at msg w

  unfoldable pub as_symbol : ℕ → ReceivedMessage → W → Result Symbol
  unfolding is_tag arg
  as_symbol at msg w =
      checked (is_symbol at msg w) (λ a. record { value = some (lo.sym a) }) at msg w

  unfoldable pub as_time_tag : ℕ → ReceivedMessage → W → Result TimeTag
  unfolding is_tag arg
  as_time_tag at msg w =
      checked (is_time_tag at msg w) (λ a. record { sec = (lo.t a).sec; frac = (lo.t a).frac }) at
        msg w

  -- No check of the type.
  unfoldable pub as_blob : ℕ → ReceivedMessage → W → Result Blob
  unfolding arg
  as_blob at msg w =
      and_result (arg at msg w)
        (through (λ a. record { content = lo.blob_dataptr a; size = lo.blob_datasize a }))

  unfoldable pub get_hostname : MessageSource → W → Text
  get_hostname source w = lo.address_get_hostname source.address w

  unfoldable pub get_port : MessageSource → W → Text
  get_port source w = lo.address_get_port source.address w

  unfoldable pub get_url : MessageSource → W → Text
  get_url source w = lo.address_get_url source.address w
