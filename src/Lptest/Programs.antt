-- ===== src/Lptest/Programs.antt =====
-- TestReceiver::process and Object::processOscMessage. What goes to std::cout is the list of the
-- values streamed; where an accessor throws, what was streamed before is not kept.
use lopack.Prelude.{
  ℕ, zero, suc, Bool, true, false, List, [], ◌∷◌, ◌++◌, Option, none, some, ◌==◌, if◌then◌else◌,
}
use lopack.Prelude.Text.{Text, codes, text_eq}
use lopack.Types.{MidiMessage, Symbol, Blob}
use lopack.Outcome.{Result, returned, raised, undetermined, and_return}
use lopack.Received.Reader.{Reader}
use lopack.Received.Read.{
  ReceivedMessage, MessageSource, types, check_address_and_types, type_tag, num_args, as_bool,
  as_char, as_int32, as_int64, as_float, as_double, as_string, as_symbol, as_midi_message,
  as_time_tag, as_blob, get_url,
}
use lopack.Received.Print.{print_arg}

-- A value that is streamed, by its type.
pub data Shown : Type 0 where
  text : Text → Shown
  bool : Bool → Shown
  char nat int32 int64 float double : ℕ → Shown
  symbol : Symbol → Shown
  midi : MidiMessage → Shown

abbrev pub all_shown : List (Result Shown) → Result (List Shown)
all_shown [] = returned []
all_shown (returned x ∷ rs) = and_return (all_shown rs) (λ xs. x ∷ xs)
all_shown (raised e ∷ rs) = raised e
all_shown (undetermined ∷ rs) = undetermined

abbrev label : Text → Result Shown
label t = returned (Shown.text t)

-- The std::string that is made from a pointer: the bytes up to a NUL, which has to be there.
unfoldable pub until_nul : List ℕ → Option Text
until_nul [] = none
until_nul (c ∷ s) =
    if c == 0 then some [] else elim (until_nul s) [ none ↦ none | some t ↦ some (c ∷ t) ]

abbrev pub blob_text : Result Blob → Result Shown
blob_text (returned b) = elim (until_nul b.content) [
  | none ↦ undetermined
  | some t ↦ returned (Shown.text t)
]
blob_text (raised e) = raised e
blob_text undetermined = undetermined

abbrev new_line : Result Shown
new_line = label (10 ∷ [])

module _ {W : Type 0} (lo : Reader W) where
  -- What Object::processOscMessage shows.
  abbrev pub object_items : ReceivedMessage → MessageSource → W → List (Result Shown)
  object_items msg source w =
      label (codes "Object: received message ")
      ∷ label msg.address_pattern
      ∷ label (codes " ")
      ∷ label (types lo msg w)
      ∷ label (codes " from ")
      ∷ label (get_url lo source w)
      ∷ new_line
      ∷ label (codes "  ")
      ∷ and_return (as_int32 lo 0 msg w) Shown.int32
      ∷ label (codes " ")
      ∷ and_return (as_float lo 1 msg w) Shown.float
      ∷ label (codes " ")
      ∷ and_return (as_string lo 2 msg w) Shown.text
      ∷ new_line
      ∷ []

  -- Object::processOscMessage, for an object with the given root address
  unfoldable pub object_process :
      Text → ReceivedMessage → MessageSource → W → Result (List Shown × Bool)
  unfolding check_address_and_types types as_int32 as_float as_string get_url
  object_process root msg source w =
      if check_address_and_types lo root (codes "ifs") msg w
      then and_return (all_shown (object_items msg source w)) (λ out. (out, true))
      else returned ([], false)

  -- The first line of TestReceiver::process, which has the types twice.
  unfoldable pub received_line : ReceivedMessage → MessageSource → W → List Shown
  unfolding types get_url
  received_line msg source w =
      let tags = types lo msg w in
      Shown.text (codes "TestReceiver: received message ")
      ∷ Shown.text msg.address_pattern
      ∷ Shown.text (elim tags [ [] ↦ [] | t ∷ ts ↦ codes " " ++ t ∷ ts ])
      ∷ Shown.text tags
      ∷ Shown.text (codes " from ")
      ∷ Shown.text (get_url lo source w)
      ∷ Shown.text (10 ∷ [])
      ∷ []

  -- The branch that parses the test message.
  abbrev pub parse_items : ReceivedMessage → W → List (Result Shown)
  parse_items msg w =
      label (codes "/test3 parsing all message types")
      ∷ label (codes " ")
      ∷ returned (Shown.char (type_tag lo 0 msg w))
      ∷ label (codes "\n  bool T: ")
      ∷ and_return (as_bool lo 0 msg w) Shown.bool
      ∷ label (codes "\n  bool F: ")
      ∷ and_return (as_bool lo 1 msg w) Shown.bool
      ∷ label (codes "\n  char: '")
      ∷ and_return (as_char lo 2 msg w) Shown.char
      ∷ label (codes "'\n  nil\n  infinitum\n  int32: ")
      ∷ and_return (as_int32 lo 5 msg w) Shown.int32
      ∷ label (codes "\n  int64: ")
      ∷ and_return (as_int64 lo 6 msg w) Shown.int64
      ∷ label (codes "\n  float: ")
      ∷ and_return (as_float lo 7 msg w) Shown.float
      ∷ label (codes "\n  double: ")
      ∷ and_return (as_double lo 8 msg w) Shown.double
      ∷ label (codes "\n  string: \"")
      ∷ and_return (as_string lo 9 msg w) Shown.text
      ∷ label (codes "\"\n  symbol: \"")
      ∷ and_return (as_symbol lo 10 msg w) Shown.symbol
      ∷ label (codes "\"\n  midi: ")
      ∷ and_return (as_midi_message lo 11 msg w) Shown.midi
      ∷ label (codes "\n  timetag: ")
      ∷ and_return (as_time_tag lo 12 msg w) (λ t. Shown.nat t.sec)
      ∷ label (codes " ")
      ∷ and_return (as_time_tag lo 12 msg w) (λ t. Shown.nat t.frac)
      ∷ label (codes "\n  blob: \"")
      ∷ blob_text (as_blob lo 13 msg w)
      ∷ label (codes "\"\n")
      ∷ []

  unfoldable pub parse_all : ReceivedMessage → W → Result (List Shown)
  unfolding type_tag as_bool as_char as_int32 as_int64 as_float as_double as_string as_symbol
      as_midi_message as_time_tag as_blob
  parse_all msg w = all_shown (parse_items msg w)

  -- An argument's line, but for what liblo prints.
  abbrev pub arg_line : ℕ → ReceivedMessage → W → List Shown
  arg_line at msg w =
      Shown.text (codes "  arg ")
      ∷ Shown.nat at
      ∷ Shown.text (codes " '")
      ∷ Shown.char (type_tag lo at msg w)
      ∷ Shown.text (codes "' ")
      ∷ Shown.text (10 ∷ [])
      ∷ []

  -- The loop over the arguments from index `at`, `left` of them.
  unfoldable pub print_args : (left at : ℕ) → ReceivedMessage → W → Result (List Shown × W)
  unfolding print_arg type_tag
  print_args zero at msg w = returned ([], w)
  print_args (suc left) at msg w = elim (print_arg lo at msg w) [
    | returned w' ↦
        and_return (print_args left (suc at) msg w') (λ (out, v). (arg_line at msg w ++ out, v))
    | raised e ↦ raised e
    | undetermined ↦ undetermined
  ]

  -- TestReceiver::process: the output, the member `done` and liblo's state; the result is always true.
  unfoldable pub process :
      Bool → ReceivedMessage → MessageSource → W → Result (List Shown × Bool × W)
  unfolding received_line parse_all print_args check_address_and_types num_args
  process done msg source w =
      let first = received_line msg source w in
      if text_eq msg.address_pattern (codes "/quit")
      then returned (first, true, w)
      else (if check_address_and_types lo (codes "/test3") (codes "TFcNIihfdsSmtb") msg w
          then and_return (parse_all msg w) (λ out. (first ++ out, done, w))
          else and_return (print_args (num_args lo msg w) 0 msg w)
              (λ (out, v). (first ++ out, done, v)))
