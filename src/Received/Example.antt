-- ===== src/Received/Example.antt =====
-- Readers for the examples, by the arguments that a message has.
use lopack.Prelude.{
  ℕ, zero, suc, false, not, Option, none, some, ◌==◌, if◌then◌else◌, List, [], ◌∷◌, map, refl,
  length,
}
use lopack.Prelude.Text.{Text, codes}
use lopack.Types.{MidiMessage, TimeTag, midi_bytes}
use lopack.Liblo.{Ptr, Arg}
use lopack.Received.Reader.{Reader, Casts}
use lopack.Received.Read.{ReceivedMessage}
use lopack.Received.Contract.{tag, has_data, Contents, RepresentsAll}

abbrev number_in : Arg → ℕ
number_in (Arg.char v) = v
number_in (Arg.int32 v) = v
number_in (Arg.int64 v) = v
number_in (Arg.float v) = v
number_in (Arg.double v) = v
number_in _ = 0

abbrev text_in : Arg → Text
text_in (Arg.string v) = v
text_in (Arg.symbol v) = v
text_in _ = []

abbrev midi_in : Arg → MidiMessage
midi_in (Arg.midi v) = v
midi_in _ = midi_bytes 0 0 0 0

abbrev timetag_in : Arg → TimeTag
timetag_in (Arg.timetag v) = v
timetag_in _ = record { sec = 0; frac = 0 }

abbrev blob_in : Arg → List ℕ
blob_in (Arg.blob v) = v
blob_in _ = []

-- The arguments of a message in a state are those that `arguments` gives.
abbrev pub reader_of : {W : Type 0} → (Ptr → W → List Arg) → Reader W
reader_of arguments = record {
  message_incref = λ p w. w;
  message_get_types = λ p w. map tag (arguments p w);
  message_get_argc = λ p w. length (arguments p w);
  message_get_timestamp = λ p w. record { sec = 5; frac = 7 };
  message_get_source = λ p w. 1;
  LoArg = Arg;
  is_null = λ a. not (has_data a);
  message_get_argv = arguments;
  c = number_in;
  i = number_in;
  h = number_in;
  f = number_in;
  d = number_in;
  s = text_in;
  sym = text_in;
  m = midi_in;
  t = timetag_in;
  blob_dataptr = blob_in;
  blob_datasize = λ a. length (blob_in a);
  message_pp = λ p w. w;
  arg_pp = λ k a w. w;
  address_get_hostname = λ p w. codes "127.0.0.1";
  address_get_port = λ p w. codes "9990";
  address_get_url = λ p w. codes "osc.udp://127.0.0.1:9990/";
}

-- Message n of a list, from 0, has the arguments that the list gives it.
abbrev pub nth : {W : Type 0} → List (Text × List Arg) → Ptr → W → List Arg
nth [] p w = []
nth ((path, args) ∷ xs) zero w = args
nth (x ∷ xs) (suc p) w = nth xs p w

-- The state is the arguments of the message at hand.
abbrev pub list_reader : Reader (List Arg)
list_reader = reader_of (λ p w. w)

-- Zero is in every range; no other pattern is converted.
abbrev at_zero : ℕ → Option ℕ
at_zero v = if v == 0 then some 0 else none

-- Conversions of bit patterns that are right at zero, which is all that the examples use.
abbrev pub plain_casts : Casts
plain_casts = record {
  float_to_bool = λ v. false;
  double_to_bool = λ v. false;
  float_to_int = at_zero;
  double_to_int = at_zero;
  float_to_uint = at_zero;
  double_to_uint = at_zero;
  bool_to_float = λ b. 0;
  int32_to_float = λ v. 0;
  int64_to_float = λ v. 0;
  double_to_float = at_zero;
  bool_to_double = λ b. 0;
  int32_to_double = λ v. 0;
  int64_to_double = λ v. 0;
  float_to_double = λ v. 0;
}

module _ {W : Type 0} (arguments : Ptr → W → List Arg) where
  represents_all : (args : List Arg) → RepresentsAll (reader_of arguments) args args
  represents_all [] = tt
  represents_all (Arg.true_flag ∷ args) = ((refl, tt), represents_all args)
  represents_all (Arg.blob v ∷ args) = ((refl, (refl, refl)), represents_all args)
  represents_all (Arg.false_flag ∷ args) = ((refl, tt), represents_all args)
  represents_all (Arg.nil ∷ args) = ((refl, tt), represents_all args)
  represents_all (Arg.infinitum ∷ args) = ((refl, tt), represents_all args)
  represents_all (a ∷ args) = ((refl, refl), represents_all args)

  pub reader_of-Contents : (p : Ptr) (w : W) → Contents (reader_of arguments) p w (arguments p w)
  reader_of-Contents p w = record {
    types = refl;
    count = refl;
    members = represents_all (arguments p w);
  }

pub list-Contents : (p : ℕ) (w : List Arg) → Contents list_reader p w w
list-Contents = reader_of-Contents (λ p w. w)

abbrev pub received : Text → ReceivedMessage
received pattern = record { address_pattern = pattern; message = 1 }
