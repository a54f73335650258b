-- ===== src/Types.antt =====
-- The value types of src/lopack/OscTypes.h. A fixed-width integer is its bit pattern, a float or a double
-- its IEEE bit pattern; a union is the record of its bytes.
pub mod Midi
pub mod Time
mod Tests
use lopack.Prelude.{ℕ, Bool, true, false, ◌&&◌, ◌+◌, ◌*◌, Option, List, ◌==◌}
use lopack.Prelude.Text.{Text}

-- The union of four bytes and a 32-bit value.
pub record MidiMessage : Type 0 where
  pub byte0 : ℕ
  pub byte1 : ℕ
  pub byte2 : ℕ
  pub byte3 : ℕ

abbrev pub midi_bytes : ℕ → ℕ → ℕ → ℕ → MidiMessage
midi_bytes a b c d = record { byte0 = a; byte1 = b; byte2 = c; byte3 = d }

-- The constructor that copies four bytes, in reverse order if it is told to.
unfoldable pub midi_message : MidiMessage → Bool → MidiMessage
midi_message m true = midi_bytes m.byte3 m.byte2 m.byte1 m.byte0
midi_message m false = midi_bytes m.byte0 m.byte1 m.byte2 m.byte3

pub data ByteOrder : Type 0 where
  little big : ByteOrder

-- `operator uint32_t`: the other member of the union, which the host's byte order decides.
unfoldable pub midi_value : ByteOrder → MidiMessage → ℕ
midi_value little m = m.byte0 + 256 * (m.byte1 + 256 * (m.byte2 + 256 * m.byte3))
midi_value big m = m.byte3 + 256 * (m.byte2 + 256 * (m.byte1 + 256 * m.byte0))

-- The pair of 32-bit words is the same data as liblo's lo_timetag.
pub record TimeTag : Type 0 where
  pub sec : ℕ
  pub frac : ℕ

unfoldable pub timetag_eq : TimeTag → TimeTag → Bool
timetag_eq a b = a.sec == b.sec && a.frac == b.frac

-- A pointer to a C string, or NULL.
pub record Symbol : Type 0 where
  pub value : Option Text

-- A pointer to some memory, and how much of it to use.
pub record Blob : Type 0 where
  pub content : List ℕ
  pub size : ℕ
