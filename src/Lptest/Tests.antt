-- ===== src/Lptest/Tests.antt =====
-- Examples: the packets of testSender on the reference library, two of them parsed, and all of them
-- brought to the test receiver.
use lopack.Prelude.{true, false, ◌||◌, List, [], ◌∷◌, some, ◌≡◌, refl, arith, get_elem?, subst}
use mathlib.Core.Option.{some-injective}
use lopack.Prelude.Text.{Text, codes, text_eq}
use lopack.Outcome.{returned, done}
use lopack.Liblo.{Ptr, Arg, Sent}
use lopack.Liblo.Packets.{messages_in_each}
use lopack.Received.Contract.{Contents}
use lopack.Received.Reader.{Reader}
use lopack.Receiver.State.{Arrival, OscReceiver}
use lopack.Receiver.Incoming.{take_in}
use lopack.Liblo.Reference.{World, start, reference, reference_contract}
use lopack.Sender.Emit.{idle}
use lopack.Sender.Frame.{SameObjects}
use lopack.Sender.Sequence.{CarriesAll}
use lopack.Received.Read.{MessageSource, check_address_and_types}
use lopack.Received.Example.{
  list_reader, list-Contents, nth, reader_of, reader_of-Contents, received,
}
use lopack.Lptest.Programs.{Shown, until_nul, object_process, process}
use lopack.Lptest.Parsing.{HasNulArg, object_process-returned}
use lopack.Lptest.Listener.{process-returned}
use lopack.Lptest.TestSender.{
  Readings, all_types, blob_data, test_packets, test_sender, test_sender-delivers,
}
use lopack.Lptest.Callbacks.{TestState, object_callback, process_callback}
use lopack.Lptest.EndToEnd.{test_program}
use lopack.Roundtrip.{Reads, Brings, handed_each}
use lopack.Lptest.RunTests.{whole, noon, soon, in_range, polled, polled-IsServing}

abbrev at_noon : Readings
at_noon = record { now = noon; began = noon; later = noon }

abbrev source : MessageSource
source = record { address = 1 }

test_sender-delivers_example :
    (v : World) × (xs : List Sent) × (test_sender reference whole at_noon (idle reference 1 start)
      ≡ done (idle reference 1 v))
    × (v.sent ≡ xs)
    × CarriesAll reference reference_contract 1 (test_packets noon noon soon) xs
    × SameObjects (reference_contract.heap start) (reference_contract.heap v)
test_sender-delivers_example =
    test_sender-delivers reference reference_contract whole at_noon soon 1 start in_range
      (omega arith)

abbrev object_args : List Arg
object_args = Arg.int32 123 ∷ Arg.float 0x43e4_63d7 ∷ Arg.string (codes "foo bar") ∷ []

object_process-returned_example :
    (out : List Shown) × (object_process list_reader
        (codes "/object")
        (received (codes "/object"))
        source
        object_args
      ≡ returned (
        out,
        check_address_and_types list_reader
            (codes "/object")
            (codes "ifs")
            (received (codes "/object"))
            object_args,
      ))
object_process-returned_example =
    object_process-returned list_reader (received (codes "/object")) object_args object_args
      (list-Contents 1 object_args) (codes "/object") source

all_types-HasNulArg : (a : Arg) → get_elem? (all_types noon) 13 ≡ some a → HasNulArg a
unfolding until_nul
all_types-HasNulArg a e =
    subst HasNulArg (some-injective (Arg.blob blob_data) a e) (codes "this is some blob data", refl)

process-returned_example :
    (out : List Shown) × (v : List Arg) × (process list_reader false
        (received (codes "/test3"))
        source
        (all_types noon)
      ≡ returned (out, text_eq (codes "/test3") (codes "/quit") || false, v))
process-returned_example =
    process-returned list_reader (received (codes "/test3")) (all_types noon) (λ k a v c. c) false
      source (all_types noon) (list-Contents 1 (all_types noon)) all_types-HasNulArg

abbrev tests : List (Text × List Arg)
tests = handed_each false (messages_in_each (test_packets noon noon soon))

abbrev tests_reader : Reader Unit
tests_reader = reader_of (nth tests)

tests_read : (p : Ptr) (w : Unit) → Contents tests_reader p w (nth tests p w)
tests_read = reader_of-Contents (nth tests)

abbrev tests_arrive : List Arrival
tests_arrive =
    record { path = codes "/test1"; message = 0 }
    ∷ record { path = codes "/test2"; message = 1 }
    ∷ record { path = codes "/test3"; message = 2 }
    ∷ record { path = codes "/test4"; message = 3 }
    ∷ record { path = codes "/test5"; message = 4 }
    ∷ record { path = codes "/object"; message = 5 }
    ∷ record { path = codes "/quit"; message = 6 }
    ∷ []

tests_brought :
    Brings reference reference_contract tests_reader false 1 (test_packets noon noon soon)
tests_brought xs carry = (
  tests_arrive,
  ((
    refl,
    tests_read 0,
    (
      refl,
      tests_read 1,
      (
        refl,
        tests_read 2,
        (refl, tests_read 3, (refl, tests_read 4, (refl, tests_read 5, (refl, tests_read 6, tt)))),
      ),
    ),
  )),
)

test_program_example :
    (v : World) × (xs : List Sent) × (arrivals : List Arrival) × (t : OscReceiver Unit TestState)
    × (test_sender reference whole at_noon (idle reference 1 start) ≡ done (idle reference 1 v))
    × (v.sent ≡ xs)
    × Reads tests_reader tests arrivals
    × (take_in tests_reader
          (object_callback tests_reader)
          (process_callback tests_reader)
          1
          arrivals
          (polled tt)
        ≡ some t)
    × (t.scene.user.fault ≡ false)
    × (t.scene.user.done ≡ true)
test_program_example =
    test_program reference reference_contract tests_reader false false whole at_noon soon 1 2 start
      1 (polled tt) in_range (omega arith) (omega arith) (omega arith) polled-IsServing
      tests_brought
