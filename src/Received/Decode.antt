-- ===== src/Received/Decode.antt =====
-- What the accessors return for a message of known contents.
use lopack.Prelude.{
  ℕ, Bool, true, false, List, Option, none, some, ◌≡◌, refl, arith, subst, ap₂, length, get_elem?,
}
use lopack.Prelude.Text.{Text}
use lopack.Types.{MidiMessage, TimeTag, Symbol, Blob, midi_bytes, midi_message}
use lopack.Outcome.{Result, returned, raised, undetermined, type_exception, arg_exception}
use lopack.Liblo.{Arg}
use lopack.Received.Reader.{Reader}
use lopack.Received.Read.{
  ReceivedMessage, as_bool, as_char, as_int32, as_int64, as_float, as_double, as_string, as_symbol,
  as_midi_message, as_time_tag, as_blob,
}
use lopack.Received.Contract.{
  tag, has_data, Represents, Contents, arg_out_of_range, type_tag-Contents, arg-Contents,
}

-- What an accessor is to do with the argument at an index, if there is one.
abbrev pub bool_of : Option Arg → Result Bool
bool_of (some Arg.true_flag) = returned true
bool_of (some Arg.false_flag) = returned false
bool_of _ = raised type_exception

abbrev pub char_of : Option Arg → Result ℕ
char_of (some (Arg.char v)) = returned v
char_of _ = raised type_exception

abbrev pub int32_of : Option Arg → Result ℕ
int32_of (some (Arg.int32 v)) = returned v
int32_of _ = raised type_exception

abbrev pub int64_of : Option Arg → Result ℕ
int64_of (some (Arg.int64 v)) = returned v
int64_of _ = raised type_exception

abbrev pub float_of : Option Arg → Result ℕ
float_of (some (Arg.float v)) = returned v
float_of _ = raised type_exception

abbrev pub double_of : Option Arg → Result ℕ
double_of (some (Arg.double v)) = returned v
double_of _ = raised type_exception

abbrev pub string_of : Option Arg → Result Text
string_of (some (Arg.string v)) = returned v
string_of _ = raised type_exception

abbrev pub symbol_of : Option Arg → Result Symbol
symbol_of (some (Arg.symbol v)) = returned (record { value = some v })
symbol_of _ = raised type_exception

abbrev pub midi_of : Option Arg → Result MidiMessage
midi_of (some (Arg.midi v)) = returned (midi_bytes v.byte3 v.byte2 v.byte1 v.byte0)
midi_of _ = raised type_exception

abbrev pub time_tag_of : Option Arg → Result TimeTag
time_tag_of (some (Arg.timetag v)) = returned v
time_tag_of _ = raised type_exception

module _ {W : Type 0} (lo : Reader W) (msg : ReceivedMessage) (w : W) (args : List Arg) (at : ℕ)
    (c : Contents lo msg.message w args) where
  pub decode_bool : (o : Option Arg) → get_elem? args at ≡ o → as_bool lo at msg w ≡ bool_of o
  unfolding as_bool tag
  decode_bool none e = ground (arith, type_tag-Contents lo msg w args at c)
  decode_bool o e = ground (arith, type_tag-Contents lo msg w args at c)

  pub decode_char : (o : Option Arg) → get_elem? args at ≡ o → as_char lo at msg w ≡ char_of o
  unfolding as_char tag
  decode_char (some (Arg.char v)) e =
      let (x, got, holds) = arg-Contents lo msg w args at (Arg.char v) c e in
      ground (arith, type_tag-Contents lo msg w args at c, got, holds)
  decode_char o e = ground (arith, type_tag-Contents lo msg w args at c)

  pub decode_int32 : (o : Option Arg) → get_elem? args at ≡ o → as_int32 lo at msg w ≡ int32_of o
  unfolding as_int32 tag
  decode_int32 (some (Arg.int32 v)) e =
      let (x, got, holds) = arg-Contents lo msg w args at (Arg.int32 v) c e in
      ground (arith, type_tag-Contents lo msg w args at c, got, holds)
  decode_int32 o e = ground (arith, type_tag-Contents lo msg w args at c)

  pub decode_int64 : (o : Option Arg) → get_elem? args at ≡ o → as_int64 lo at msg w ≡ int64_of o
  unfolding as_int64 tag
  decode_int64 (some (Arg.int64 v)) e =
      let (x, got, holds) = arg-Contents lo msg w args at (Arg.int64 v) c e in
      ground (arith, type_tag-Contents lo msg w args at c, got, holds)
  decode_int64 o e = ground (arith, type_tag-Contents lo msg w args at c)

  pub decode_float : (o : Option Arg) → get_elem? args at ≡ o → as_float lo at msg w ≡ float_of o
  unfolding as_float tag
  decode_float (some (Arg.float v)) e =
      let (x, got, holds) = arg-Contents lo msg w args at (Arg.float v) c e in
      ground (arith, type_tag-Contents lo msg w args at c, got, holds)
  decode_float o e = ground (arith, type_tag-Contents lo msg w args at c)

  pub decode_double : (o : Option Arg) → get_elem? args at ≡ o → as_double lo at msg w ≡ double_of o
  unfolding as_double tag
  decode_double (some (Arg.double v)) e =
      let (x, got, holds) = arg-Contents lo msg w args at (Arg.double v) c e in
      ground (arith, type_tag-Contents lo msg w args at c, got, holds)
  decode_double o e = ground (arith, type_tag-Contents lo msg w args at c)

  pub decode_string : (o : Option Arg) → get_elem? args at ≡ o → as_string lo at msg w ≡ string_of o
  unfolding as_string tag
  decode_string (some (Arg.string v)) e =
      let (x, got, holds) = arg-Contents lo msg w args at (Arg.string v) c e in
      ground (arith, type_tag-Contents lo msg w args at c, got, holds)
  decode_string o e = ground (arith, type_tag-Contents lo msg w args at c)

  pub decode_symbol : (o : Option Arg) → get_elem? args at ≡ o → as_symbol lo at msg w ≡ symbol_of o
  unfolding as_symbol tag
  decode_symbol (some (Arg.symbol v)) e =
      let (x, got, holds) = arg-Contents lo msg w args at (Arg.symbol v) c e in
      ground (arith, type_tag-Contents lo msg w args at c, got, holds)
  decode_symbol o e = ground (arith, type_tag-Contents lo msg w args at c)

  pub decode_midi_message :
      (o : Option Arg) → get_elem? args at ≡ o → as_midi_message lo at msg w ≡ midi_of o
  unfolding as_midi_message tag midi_message
  decode_midi_message (some (Arg.midi v)) e =
      let (x, got, holds) = arg-Contents lo msg w args at (Arg.midi v) c e in
      ground (arith, type_tag-Contents lo msg w args at c, got, holds)
  decode_midi_message o e = ground (arith, type_tag-Contents lo msg w args at c)

  pub decode_time_tag :
      (o : Option Arg) → get_elem? args at ≡ o → as_time_tag lo at msg w ≡ time_tag_of o
  unfolding as_time_tag tag
  decode_time_tag (some (Arg.timetag v)) e =
      let (x, got, holds) = arg-Contents lo msg w args at (Arg.timetag v) c e in
      ground (arith, type_tag-Contents lo msg w args at c, got, holds)
  decode_time_tag o e = ground (arith, type_tag-Contents lo msg w args at c)

  -- On a message that holds `args`, each accessor with a type check returns the value of the
  -- argument at the index if that has its type (a MIDI message with its bytes reversed), and throws
  -- TypeException if it has another type or the index is out of range; none throws ArgException.
  pub accessors_decode :
      (as_bool lo at msg w ≡ bool_of (get_elem? args at))
      × (as_char lo at msg w ≡ char_of (get_elem? args at))
      × (as_int32 lo at msg w ≡ int32_of (get_elem? args at))
      × (as_int64 lo at msg w ≡ int64_of (get_elem? args at))
      × (as_float lo at msg w ≡ float_of (get_elem? args at))
      × (as_double lo at msg w ≡ double_of (get_elem? args at))
      × (as_string lo at msg w ≡ string_of (get_elem? args at))
      × (as_symbol lo at msg w ≡ symbol_of (get_elem? args at))
      × (as_midi_message lo at msg w ≡ midi_of (get_elem? args at))
      × (as_time_tag lo at msg w ≡ time_tag_of (get_elem? args at))
  accessors_decode =
      let o = get_elem? args at in
      (
        decode_bool o refl,
        decode_char o refl,
        decode_int32 o refl,
        decode_int64 o refl,
        decode_float o refl,
        decode_double o refl,
        decode_string o refl,
        decode_symbol o refl,
        decode_midi_message o refl,
        decode_time_tag o refl,
      )

  decode_blob :
      (a : Arg)
      → get_elem? args at ≡ some a
      → has_data a ≡ true
      → (b : Blob) × (as_blob lo at msg w ≡ returned b)
        × ((v : List ℕ) → a ≡ Arg.blob v → b ≡ record { content = v; size = length v })
  unfolding as_blob
  decode_blob a e some_data =
      let (x, got, (full, holds)) = arg-Contents lo msg w args at a c e in
      (
        record { content = lo.blob_dataptr x; size = lo.blob_datasize x },
        ground (arith, got, full, some_data),
        λ v is.
            let (whole, (same, size)) = subst (Represents lo x) is (full, holds) in
            ap₂ (λ n s. record { content = n; size = s }) same size,
      )

  decode_null :
      (a : Arg)
      → get_elem? args at ≡ some a
      → has_data a ≡ false
      → as_blob lo at msg w ≡ undetermined
  unfolding as_blob
  decode_null a e no_data =
      let (x, got, (empty, holds)) = arg-Contents lo msg w args at a c e in
      ground (arith, got, empty, no_data)

  decode_no_blob : get_elem? args at ≡ none → as_blob lo at msg w ≡ raised arg_exception
  unfolding as_blob
  decode_no_blob e = rw (arg_out_of_range lo msg w args at c e)

  -- `as_blob` has no type check. For an argument that has data, of any type, it returns a blob, the
  -- right one for a blob argument; for one without data (the types T, F, N and I) it reads through
  -- NULL, which is undefined; and beyond the last argument it throws ArgException.
  pub as_blob-unchecked :
      ((a : Arg)
        → get_elem? args at ≡ some a
        → has_data a ≡ true
        → (b : Blob) × (as_blob lo at msg w ≡ returned b)
          × ((v : List ℕ) → a ≡ Arg.blob v → b ≡ record { content = v; size = length v }))
      × ((a : Arg)
          → get_elem? args at ≡ some a
          → has_data a ≡ false
          → as_blob lo at msg w ≡ undetermined)
      × (get_elem? args at ≡ none → as_blob lo at msg w ≡ raised arg_exception)
  as_blob-unchecked = (decode_blob, decode_null, decode_no_blob)
