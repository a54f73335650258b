-- ===== src/Sender/Stream.antt =====
-- The overloads of `operator<<`: what is streamed decides which member function is called.
use lopack.Prelude.{ℕ, Bool}
use lopack.Prelude.Text.{Text}
use lopack.Types.{MidiMessage, TimeTag, Symbol, Blob}
use lopack.Outcome.{Outcome}
use lopack.Liblo.{Liblo}
use lopack.Sender.State.{Sender}
use lopack.Sender.Build

-- A constructor for each overload.
pub data Streamed : Type 0 where
  begin_message : Text → Streamed
  end_message nil infinitum end_bundle : Streamed
  bool : Bool → Streamed
  char int32 int64 float double : ℕ → Streamed
  c_str string : Text → Streamed
  symbol : Symbol → Streamed
  midi_message : MidiMessage → Streamed
  timetag begin_bundle : TimeTag → Streamed
  blob : Blob → Streamed

module _ (lo : Liblo) where
  unfoldable pub stream : Streamed → Sender lo → Outcome (Sender lo)
  stream (begin_message pattern) = Build.begin_message lo pattern
  stream end_message = Build.end_message lo
  stream (bool var) = Build.add_bool lo var
  stream (char var) = Build.add_char lo var
  stream nil = Build.add_nil lo
  stream infinitum = Build.add_infinitum lo
  stream (int32 var) = Build.add_int32 lo var
  stream (int64 var) = Build.add_int64 lo var
  stream (float var) = Build.add_float lo var
  stream (double var) = Build.add_double lo var
  stream (c_str var) = Build.add_string lo var
  stream (string var) = Build.add_string lo var
  stream (symbol var) = Build.add_symbol lo var
  stream (midi_message var) = Build.add_midi_message lo var
  stream (timetag var) = Build.add_timetag lo var
  stream (blob var) = Build.add_blob lo var
  stream (begin_bundle tag) = Build.begin_bundle lo tag
  stream end_bundle = Build.end_bundle lo
