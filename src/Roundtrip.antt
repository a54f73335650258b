-- ===== src/Roundtrip.antt =====
-- From a sender to a receiver: what the network does, and that the accessors of
-- src/lopack/OscTypes.cpp give back what was streamed into src/lopack/OscSender.cpp.
use lopack.Prelude.{
  ℕ, zero, suc, Bool, true, false, not, List, [], ◌∷◌, ◌++◌, Option, none, some, ◌≡◌, ◌≢◌, refl,
  sym, ap, ◌∙◌, ◌+◌, arith, map, length, All, get_elem?,
}
use lopack.Prelude.Text.{Text}
use lopack.Types.{MidiMessage, Blob, midi_message}
use lopack.Outcome.{returned, done}
use lopack.Liblo.{Liblo, Ptr, null, Arg, Sent}
use lopack.Liblo.Contract.{Contract}
use lopack.Liblo.Packets.{Packet, messages_in_each}
use lopack.Sender.Script.{IsClean}
use lopack.Sender.Emit.{idle}
use lopack.Sender.Sequence.{CarriesAll, send_each, deliver_each}
use lopack.Received.Reader.{Reader}
use lopack.Received.Read.{
  ReceivedMessage, check_address_and_types, num_args, is_tag, is_nil, is_infinitum, as_bool,
  as_char, as_int32, as_int64, as_float, as_double, as_string, as_symbol, as_midi_message,
  as_time_tag, as_blob,
}
use lopack.Received.Contract.{tag, Contents, type_tag-Contents}
use lopack.Received.Decode.{
  decode_bool, decode_char, decode_int32, decode_int64, decode_float, decode_double, decode_string,
  decode_symbol, decode_midi_message, decode_time_tag, as_blob-unchecked,
}
use lopack.Received.Match.{check_address_and_types_iff}
use lopack.Receiver.State.{Arrival}
mod Tests

-- liblo hands the four bytes of a MIDI message over as they were sent, or reversed.
abbrev pub handed : Bool → Arg → Arg
handed reversed (Arg.midi v) = Arg.midi (midi_message v reversed)
handed reversed a = a

abbrev pub handed_each : Bool → List (Text × List Arg) → List (Text × List Arg)
handed_each reversed [] = []
handed_each reversed ((path, args) ∷ xs) =
    (path, map (handed reversed) args) ∷ handed_each reversed xs

module _ {W : Type 0} (read : Reader W) where
  -- The arrivals are these messages, in order, and can be read in any state of liblo.
  abbrev pub Reads : List (Text × List Arg) → List Arrival → Type 0
  Reads [] [] = Unit
  Reads [] (a ∷ as') = ⊥
  Reads (x ∷ xs) [] = ⊥
  Reads ((path, args) ∷ xs) (a ∷ as') =
      (a.path ≡ path) × ((w : W) → Contents read a.message w args) × Reads xs as'

  -- What a program that reads argument `at` as what was streamed gets.
  abbrev pub Gives : Bool → Arg → ℕ → ReceivedMessage → W → Type 0
  Gives reversed Arg.true_flag at msg w = as_bool read at msg w ≡ returned true
  Gives reversed Arg.false_flag at msg w = as_bool read at msg w ≡ returned false
  Gives reversed Arg.nil at msg w = is_nil read at msg w ≡ true
  Gives reversed Arg.infinitum at msg w = is_infinitum read at msg w ≡ true
  Gives reversed (Arg.char v) at msg w = as_char read at msg w ≡ returned v
  Gives reversed (Arg.int32 v) at msg w = as_int32 read at msg w ≡ returned v
  Gives reversed (Arg.int64 v) at msg w = as_int64 read at msg w ≡ returned v
  Gives reversed (Arg.float v) at msg w = as_float read at msg w ≡ returned v
  Gives reversed (Arg.double v) at msg w = as_double read at msg w ≡ returned v
  Gives reversed (Arg.string v) at msg w = as_string read at msg w ≡ returned v
  Gives reversed (Arg.symbol v) at msg w =
      as_symbol read at msg w ≡ returned (record { value = some v })
  Gives reversed (Arg.midi v) at msg w =
      as_midi_message read at msg w ≡ returned (midi_message v (not reversed))
  Gives reversed (Arg.timetag v) at msg w = as_time_tag read at msg w ≡ returned v
  Gives reversed (Arg.blob v) at msg w =
      as_blob read at msg w ≡ returned (record { content = v; size = length v })

  -- The arguments from number `at` on.
  abbrev pub GivesAll : Bool → List Arg → ℕ → ReceivedMessage → W → Type 0
  GivesAll reversed [] at msg w = Unit
  GivesAll reversed (a ∷ args) at msg w =
      Gives reversed a at msg w × GivesAll reversed args (suc at) msg w

  -- Each arrival passes the check for its address and types, has as many arguments, and gives them.
  abbrev pub Understood : Bool → List (Text × List Arg) → List Arrival → W → Type 0
  Understood reversed [] [] w = Unit
  Understood reversed [] (a ∷ as') w = ⊥
  Understood reversed (x ∷ xs) [] w = ⊥
  Understood reversed ((path, args) ∷ xs) (a ∷ as') w =
      let msg : ReceivedMessage = record { address_pattern = a.path; message = a.message } in
      (check_address_and_types read path (map tag args) msg w ≡ true)
      × (num_args read msg w ≡ length args)
      × GivesAll reversed args 0 msg w
      × Understood reversed xs as' w

  module _ (msg : ReceivedMessage) (w : W) (args : List Arg)
      (c : Contents read msg.message w args) where
    gives :
        (reversed : Bool) (a : Arg) (at : ℕ)
        → get_elem? args at ≡ some (handed reversed a)
        → Gives reversed a at msg w
    unfolding tag is_tag midi_message
    gives reversed Arg.true_flag at e = decode_bool read msg w args at c (some Arg.true_flag) e
    gives reversed Arg.false_flag at e = decode_bool read msg w args at c (some Arg.false_flag) e
    gives reversed Arg.nil at e = ground (arith, type_tag-Contents read msg w args at c, e)
    gives reversed Arg.infinitum at e = ground (arith, type_tag-Contents read msg w args at c, e)
    gives reversed (Arg.char v) at e = decode_char read msg w args at c (some (Arg.char v)) e
    gives reversed (Arg.int32 v) at e = decode_int32 read msg w args at c (some (Arg.int32 v)) e
    gives reversed (Arg.int64 v) at e = decode_int64 read msg w args at c (some (Arg.int64 v)) e
    gives reversed (Arg.float v) at e = decode_float read msg w args at c (some (Arg.float v)) e
    gives reversed (Arg.double v) at e = decode_double read msg w args at c (some (Arg.double v)) e
    gives reversed (Arg.string v) at e = decode_string read msg w args at c (some (Arg.string v)) e
    gives reversed (Arg.symbol v) at e = decode_symbol read msg w args at c (some (Arg.symbol v)) e
    gives true (Arg.midi v) at e =
        decode_midi_message read msg w args at c (some (handed true (Arg.midi v))) e
    gives false (Arg.midi v) at e =
        decode_midi_message read msg w args at c (some (handed false (Arg.midi v))) e
    gives reversed (Arg.timetag v) at e =
        decode_time_tag read msg w args at c (some (Arg.timetag v)) e
    gives reversed (Arg.blob v) at e =
        let (b, runs, is) = (as_blob-unchecked read msg w args at c).0 (Arg.blob v) e refl in
        runs ∙ ap returned (is v refl)

    gives_all :
        (reversed : Bool) (rest : List Arg) (at : ℕ)
        → ((k : ℕ) → get_elem? args (k + at) ≡ get_elem? (map (handed reversed) rest) k)
        → GivesAll reversed rest at msg w
    gives_all reversed [] at e = tt
    gives_all reversed (a ∷ rest) at e = (
      gives reversed a at (ap (get_elem? args) (omega arith) ∙ e 0),
      gives_all reversed rest (suc at) (λ k. ap (get_elem? args) (omega arith) ∙ e (suc k)),
    )

  tag-handed :
      (reversed : Bool) (args : List Arg) → map tag (map (handed reversed) args) ≡ map tag args
  unfolding tag
  tag-handed reversed [] = refl
  tag-handed reversed (Arg.midi v ∷ args) = ap (λ ts. b'm' ∷ ts) (tag-handed reversed args)
  tag-handed reversed (a ∷ args) = ap (λ ts. tag a ∷ ts) (tag-handed reversed args)

  length-handed :
      (reversed : Bool) (args : List Arg) → length (map (handed reversed) args) ≡ length args
  length-handed reversed [] = refl
  length-handed reversed (a ∷ args) = ap suc (length-handed reversed args)

  Reads-Understood :
      (reversed : Bool) (xs : List (Text × List Arg)) (arrivals : List Arrival) (w : W)
      → Reads (handed_each reversed xs) arrivals
      → Understood reversed xs arrivals w
  unfolding num_args
  Reads-Understood reversed [] [] w r = tt
  Reads-Understood reversed [] (a ∷ rest) w r = absurd r
  Reads-Understood reversed (x ∷ xs) [] w r = absurd r
  Reads-Understood reversed ((path, args) ∷ xs) (a ∷ rest) w (same, c, more) =
      let msg : ReceivedMessage = record { address_pattern = a.path; message = a.message } in
      let received = map (handed reversed) args in
      (
        (check_address_and_types_iff read msg w received path (map tag args) (c w)).1
            (sym same, sym (tag-handed reversed args)),
        (c w).count ∙ length-handed reversed args,
        gives_all msg w received (c w) reversed args 0 (λ k. ap (get_elem? received) (omega arith)),
        Reads-Understood reversed xs rest w more,
      )

module _ (lo : Liblo) (contract : Contract lo) {W : Type 0} (read : Reader W) where
  open contract use {heap, sent}

  -- The network brings what carries the packets as messages that can be read, in order, with the
  -- bytes of MIDI messages in one order or the other.
  abbrev pub Brings : Bool → Ptr → List Packet → Type 0
  Brings reversed a ps =
      (xs : List Sent)
      → CarriesAll lo contract a ps xs
      → (arrivals : List Arrival) × Reads read (handed_each reversed (messages_in_each ps)) arrivals

  -- Packets (of texts without NUL) that are streamed and sent in turn from an idle sender with an
  -- address are transmitted, and if the network brings their messages in order, then at the receiver
  -- each message, those in nested bundles included, passes checkAddressAndTypes for the address and the types that were streamed, has
  -- as many arguments, and its accessors return each argument that was streamed: for a MIDI message
  -- the same bytes if liblo hands them over reversed, and else the reversed bytes.
  pub deliver-Understood :
      (reversed : Bool) (ps : List Packet) (a : Ptr) (w : lo.World) (u : W)
      → a ≢ null
      → All IsClean ps
      → Brings reversed a ps
      → (v : lo.World) × (xs : List Sent) × (arrivals : List Arrival) × (send_each lo ps
            (idle lo a w)
          ≡ done (idle lo a v))
        × (sent v ≡ sent w ++ xs)
        × Understood read reversed (messages_in_each ps) arrivals u
  deliver-Understood reversed ps a w u set clean net =
      let (v, xs, runs, sends, carry, same) = deliver_each lo contract a ps w set clean in
      let (arrivals, reads) = net xs carry in
      (
        v,
        xs,
        arrivals,
        runs,
        sends,
        Reads-Understood read reversed (messages_in_each ps) arrivals u reads,
      )
