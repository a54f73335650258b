-- ===== src/Lptest/Tags.antt =====
-- What the accessors return for an argument whose tag is known.
use lopack.Prelude.{
  ℕ, zero, suc, Bool, List, [], ◌∷◌, some, ◌≡◌, refl, ap, ◌∙◌, map, arith, get_elem?, ◌⊎◌, inl, inr,
  true, false,
}
use lopack.Prelude.Text.{Text}
use lopack.Types.{MidiMessage, TimeTag, Symbol, midi_bytes}
use lopack.Outcome.{returned}
use lopack.Liblo.{Arg}
use lopack.Received.Reader.{Reader}
use lopack.Received.Read.{
  ReceivedMessage, as_bool, as_char, as_int32, as_int64, as_float, as_double, as_string, as_symbol,
  as_midi_message, as_time_tag,
}
use lopack.Received.Contract.{tag, Contents}
use lopack.Received.Decode.{
  bool_of, char_of, int32_of, int64_of, float_of, double_of, string_of, symbol_of, midi_of,
  time_tag_of, decode_bool, decode_char, decode_int32, decode_int64, decode_float, decode_double,
  decode_string, decode_symbol, decode_midi_message, decode_time_tag,
}

pub tag_elem :
    (args : List Arg) (at k : ℕ)
    → get_elem? (map tag args) at ≡ some k
    → (a : Arg) × (get_elem? args at ≡ some a) × (tag a ≡ k)
tag_elem [] at k e = cc
tag_elem (a ∷ args) zero k e = (a, refl, ground (arith, e))
tag_elem (a ∷ args) (suc at) k e = tag_elem args at k e

bool_of-tag :
    (a : Arg) (k : ℕ)
    → ((k ≡ b'T') ⊎ (k ≡ b'F'))
    → tag a ≡ k
    → (v : Bool) × (bool_of (some a) ≡ returned v)
unfolding tag
bool_of-tag Arg.true_flag k b e = (true, refl)
bool_of-tag Arg.false_flag k b e = (false, refl)
bool_of-tag a k (inl b) e = ground arith
bool_of-tag a k (inr b) e = ground arith

char_of-tag : (a : Arg) → tag a ≡ b'c' → (v : ℕ) × (char_of (some a) ≡ returned v)
unfolding tag
char_of-tag (Arg.char v) e = (v, refl)
char_of-tag a e = ground arith

int32_of-tag : (a : Arg) → tag a ≡ b'i' → (v : ℕ) × (int32_of (some a) ≡ returned v)
unfolding tag
int32_of-tag (Arg.int32 v) e = (v, refl)
int32_of-tag a e = ground arith

int64_of-tag : (a : Arg) → tag a ≡ b'h' → (v : ℕ) × (int64_of (some a) ≡ returned v)
unfolding tag
int64_of-tag (Arg.int64 v) e = (v, refl)
int64_of-tag a e = ground arith

float_of-tag : (a : Arg) → tag a ≡ b'f' → (v : ℕ) × (float_of (some a) ≡ returned v)
unfolding tag
float_of-tag (Arg.float v) e = (v, refl)
float_of-tag a e = ground arith

double_of-tag : (a : Arg) → tag a ≡ b'd' → (v : ℕ) × (double_of (some a) ≡ returned v)
unfolding tag
double_of-tag (Arg.double v) e = (v, refl)
double_of-tag a e = ground arith

string_of-tag : (a : Arg) → tag a ≡ b's' → (v : Text) × (string_of (some a) ≡ returned v)
unfolding tag
string_of-tag (Arg.string v) e = (v, refl)
string_of-tag a e = ground arith

symbol_of-tag : (a : Arg) → tag a ≡ b'S' → (v : Symbol) × (symbol_of (some a) ≡ returned v)
unfolding tag
symbol_of-tag (Arg.symbol v) e = (record { value = some v }, refl)
symbol_of-tag a e = ground arith

midi_of-tag : (a : Arg) → tag a ≡ b'm' → (v : MidiMessage) × (midi_of (some a) ≡ returned v)
unfolding tag
midi_of-tag (Arg.midi v) e = (midi_bytes v.byte3 v.byte2 v.byte1 v.byte0, refl)
midi_of-tag a e = ground arith

time_tag_of-tag : (a : Arg) → tag a ≡ b't' → (v : TimeTag) × (time_tag_of (some a) ≡ returned v)
unfolding tag
time_tag_of-tag (Arg.timetag v) e = (v, refl)
time_tag_of-tag a e = ground arith

module _ {W : Type 0} (lo : Reader W) (msg : ReceivedMessage) (w : W) (args : List Arg)
    (c : Contents lo msg.message w args) (at : ℕ) where
  pub as_bool-tag :
      (k : ℕ)
      → ((k ≡ b'T') ⊎ (k ≡ b'F'))
      → get_elem? (map tag args) at ≡ some k
      → (v : Bool) × (as_bool lo at msg w ≡ returned v)
  as_bool-tag k b e =
      let (a, got, is) = tag_elem args at k e in
      let (v, same) = bool_of-tag a k b is in
      (v, decode_bool lo msg w args at c (get_elem? args at) refl ∙ ap bool_of got ∙ same)

  pub as_char-tag :
      get_elem? (map tag args) at ≡ some b'c' → (v : ℕ) × (as_char lo at msg w ≡ returned v)
  as_char-tag e =
      let (a, got, is) = tag_elem args at b'c' e in
      let (v, same) = char_of-tag a is in
      (v, decode_char lo msg w args at c (get_elem? args at) refl ∙ ap char_of got ∙ same)

  pub as_int32-tag :
      get_elem? (map tag args) at ≡ some b'i' → (v : ℕ) × (as_int32 lo at msg w ≡ returned v)
  as_int32-tag e =
      let (a, got, is) = tag_elem args at b'i' e in
      let (v, same) = int32_of-tag a is in
      (v, decode_int32 lo msg w args at c (get_elem? args at) refl ∙ ap int32_of got ∙ same)

  pub as_int64-tag :
      get_elem? (map tag args) at ≡ some b'h' → (v : ℕ) × (as_int64 lo at msg w ≡ returned v)
  as_int64-tag e =
      let (a, got, is) = tag_elem args at b'h' e in
      let (v, same) = int64_of-tag a is in
      (v, decode_int64 lo msg w args at c (get_elem? args at) refl ∙ ap int64_of got ∙ same)

  pub as_float-tag :
      get_elem? (map tag args) at ≡ some b'f' → (v : ℕ) × (as_float lo at msg w ≡ returned v)
  as_float-tag e =
      let (a, got, is) = tag_elem args at b'f' e in
      let (v, same) = float_of-tag a is in
      (v, decode_float lo msg w args at c (get_elem? args at) refl ∙ ap float_of got ∙ same)

  pub as_double-tag :
      get_elem? (map tag args) at ≡ some b'd' → (v : ℕ) × (as_double lo at msg w ≡ returned v)
  as_double-tag e =
      let (a, got, is) = tag_elem args at b'd' e in
      let (v, same) = double_of-tag a is in
      (v, decode_double lo msg w args at c (get_elem? args at) refl ∙ ap double_of got ∙ same)

  pub as_string-tag :
      get_elem? (map tag args) at ≡ some b's' → (v : Text) × (as_string lo at msg w ≡ returned v)
  as_string-tag e =
      let (a, got, is) = tag_elem args at b's' e in
      let (v, same) = string_of-tag a is in
      (v, decode_string lo msg w args at c (get_elem? args at) refl ∙ ap string_of got ∙ same)

  pub as_symbol-tag :
      get_elem? (map tag args) at ≡ some b'S' → (v : Symbol) × (as_symbol lo at msg w ≡ returned v)
  as_symbol-tag e =
      let (a, got, is) = tag_elem args at b'S' e in
      let (v, same) = symbol_of-tag a is in
      (v, decode_symbol lo msg w args at c (get_elem? args at) refl ∙ ap symbol_of got ∙ same)

  pub as_midi_message-tag :
      get_elem? (map tag args) at ≡ some b'm'
      → (v : MidiMessage) × (as_midi_message lo at msg w ≡ returned v)
  as_midi_message-tag e =
      let (a, got, is) = tag_elem args at b'm' e in
      let (v, same) = midi_of-tag a is in
      (v, decode_midi_message lo msg w args at c (get_elem? args at) refl ∙ ap midi_of got ∙ same)

  pub as_time_tag-tag :
      get_elem? (map tag args) at ≡ some b't'
      → (v : TimeTag) × (as_time_tag lo at msg w ≡ returned v)
  as_time_tag-tag e =
      let (a, got, is) = tag_elem args at b't' e in
      let (v, same) = time_tag_of-tag a is in
      (v, decode_time_tag lo msg w args at c (get_elem? args at) refl ∙ ap time_tag_of got ∙ same)
