-- ===== src/Roundtrip/Tests.antt =====
-- Example: a message inside two bundles and one after them, which the network brings with the bytes
-- of the MIDI message reversed.
use lopack.Prelude.{true, List, [], ◌∷◌, ◌≡◌, refl, arith}
use lopack.Prelude.Text.{Text, codes}
use lopack.Types.{TimeTag, midi_bytes}
use lopack.Outcome.{done}
use lopack.Liblo.{Arg, Sent}
use lopack.Liblo.Packets.{Packet, message, bundle, end, next, messages_in_each}
use lopack.Liblo.Reference.{World, start, reference, reference_contract}
use lopack.Sender.Emit.{idle}
use lopack.Sender.Sequence.{send_each}
use lopack.Received.Example.{nth, reader_of, reader_of-Contents}
use lopack.Receiver.State.{Arrival}
use lopack.Roundtrip.{handed_each, Understood, Brings, deliver-Understood}

abbrev noon : TimeTag
noon = record { sec = 43200; frac = 0 }

abbrev packets : List Packet
packets =
    bundle noon (
      next
        (bundle noon (
          next
            (message (codes "/note")
              (Arg.midi (midi_bytes 0x7f 0x90 0x3e 0x60) ∷ Arg.nil ∷ Arg.blob (1 ∷ 0 ∷ []) ∷ []))
            end))
        end)
    ∷ message (codes "/off") (Arg.string (codes "all") ∷ Arg.false_flag ∷ [])
    ∷ []

abbrev brought : List (Text × List Arg)
brought = handed_each true (messages_in_each packets)

abbrev two_arrive : List Arrival
two_arrive =
    record { path = codes "/note"; message = 0 } ∷ record { path = codes "/off"; message = 1 } ∷ []

packets-Brings :
    Brings reference reference_contract {W = Unit} (reader_of (nth brought)) true 1 packets
packets-Brings xs carry = (
  two_arrive,
  (refl, reader_of-Contents (nth brought) 0, (refl, reader_of-Contents (nth brought) 1, tt)),
)

deliver-Understood_example :
    (v : World) × (xs : List Sent) × (arrivals : List Arrival) × (send_each reference packets
        (idle reference 1 start)
      ≡ done (idle reference 1 v))
    × (v.sent ≡ xs)
    × Understood (reader_of (nth brought)) true (messages_in_each packets) arrivals tt
deliver-Understood_example =
    deliver-Understood reference reference_contract (reader_of (nth brought)) true packets 1 start
      tt (omega arith) (omega arith) packets-Brings
