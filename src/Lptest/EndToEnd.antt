-- ===== src/Lptest/EndToEnd.antt =====
-- The test program from the sender to the receiver.
use lopack.Prelude.{
  ℕ, Bool, true, false, List, [], ◌∷◌, ◌++◌, none, some, ◌≡◌, ◌≢◌, refl, subst, ◌≤◌, All, get_elem?,
}
use mathlib.Core.Option.{some-injective}
use lopack.Prelude.Text.{Text, codes, text_eq}
use lopack.Types.{TimeTag}
use lopack.Types.Time.{Doubles, time_tag_ahead}
use lopack.Outcome.{done, returned}
use lopack.Liblo.{Liblo, Ptr, null, Arg, Sent}
use lopack.Liblo.Contract.{Contract}
use lopack.Liblo.Packets.{messages_in_each}
use lopack.Sender.Emit.{idle}
use lopack.Received.Reader.{Reader}
use lopack.Receiver.State.{Arrival, OscReceiver}
use lopack.Roundtrip.{handed_each, Reads, Brings}
use lopack.Receiver.Incoming.{take_in}
use lopack.Lptest.Programs.{until_nul}
use lopack.Lptest.Parsing.{HasNulArg}
use lopack.Lptest.TestSender.{Readings, blob_data, test_packets, test_sender, test_sender-delivers}
use lopack.Lptest.Callbacks.{TestState, object_callback, process_callback}
use lopack.Lptest.Handling.{Carry, IsServing}
use lopack.Lptest.Intake.{take_in-quits}

abbrev HasNulBlob : Text × List Arg → Type 0
HasNulBlob (path, args) = (b : Arg) → get_elem? args 13 ≡ some b → HasNulArg b

no_blob : (b : Arg) → none ≡ some b → HasNulArg b
no_blob b e = cc

blob_data-HasNulArg : (b : Arg) → some (Arg.blob blob_data) ≡ some b → HasNulArg b
unfolding until_nul
blob_data-HasNulArg b e =
    subst HasNulArg (some-injective (Arg.blob blob_data) b e) (codes "this is some blob data", refl)

test_packets-HasNulBlob :
    (reversed : Bool) (now began ahead : TimeTag)
    → All HasNulBlob (handed_each reversed (messages_in_each (test_packets now began ahead)))
test_packets-HasNulBlob reversed now began ahead =
    (no_blob, (no_blob, (blob_data-HasNulArg, (no_blob, (no_blob, (no_blob, (no_blob, tt)))))))

module _ {W : Type 0} (read : Reader W) where
  Reads-Carry :
      (xs : List (Text × List Arg)) (arrivals : List Arrival)
      → All HasNulBlob xs
      → Reads read xs arrivals
      → Carry read xs arrivals
  Reads-Carry [] [] h r = tt
  Reads-Carry [] (a ∷ rest) h r = absurd r
  Reads-Carry (x ∷ xs) [] h r = absurd r
  Reads-Carry ((path, args) ∷ xs) (a ∷ rest) h r = (r.0, r.1, h.0, Reads-Carry xs rest h.1 r.2)

module _ (lo : Liblo) (contract : Contract lo) {W : Type 0} (read : Reader W) where
  open contract use {sent}

  -- From testSender to the test receiver: from an idle sender with an address, and where TimeTag(10) is in
  -- range, testSender ends with no exception, and what it transmits, if the network brings its messages in order and they can be
  -- read, is taken in by a receiver with the test program's object with no fault, and sets `done`.
  pub test_program :
      (reversed on : Bool) (d : Doubles) (c : Readings) (ahead : TimeTag) (a p : Ptr) (w : lo.World)
      (fuel : ℕ) (r : OscReceiver W TestState)
      → time_tag_ahead d c.later 10 ≡ returned ahead
      → a ≢ null
      → p ≢ null
      → 1 ≤ fuel
      → IsServing on p r
      → Brings lo contract read reversed a (test_packets c.now c.began ahead)
      → (v : lo.World) × (xs : List Sent) × (arrivals : List Arrival) × (t : OscReceiver W
          TestState)
        × (test_sender lo d c (idle lo a w) ≡ done (idle lo a v))
        × (sent v ≡ sent w ++ xs)
        × Reads read
            (handed_each reversed (messages_in_each (test_packets c.now c.began ahead)))
            arrivals
        × (take_in read (object_callback read) (process_callback read) fuel arrivals r ≡ some t)
        × (t.scene.user.fault ≡ false)
        × (t.scene.user.done ≡ true)
  unfolding text_eq
  test_program reversed on d c ahead a p w fuel r timed set set' enough polled net =
      let (v, xs, runs, sends, carry, same) =
        test_sender-delivers lo contract d c ahead a w timed set in
      let (arrivals, reads) = net xs carry in
      let ms = handed_each reversed (messages_in_each (test_packets c.now c.began ahead)) in
      let (t, taken, kept, quit) = take_in-quits read p set' fuel enough on ms arrivals r polled (
        Reads-Carry read ms arrivals (test_packets-HasNulBlob reversed c.now c.began ahead)
          reads) in
      (v, xs, arrivals, t, runs, sends, reads, taken, kept.sound, quit)
