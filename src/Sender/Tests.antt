-- ===== src/Sender/Tests.antt =====
-- Examples on the reference library: the packets of testSender in src/lptest/main.cpp, and misuses.
use lopack.Prelude.{
  true, false, none, some, List, [], ◌∷◌, ◌++◌, ◌≡◌, ◌≢◌, ◌↔◌, refl, arith, inr, All,
}
use lopack.Prelude.Text.{Text, codes}
use lopack.Outcome.{done, thrown, undefined, ◌>>◌, send_exception, bundle_not_in_progress}
use lopack.Liblo.{Ptr, Arg, Sent, null}
use lopack.Liblo.Reference.{World, start, reference, reference_contract}
use lopack.Liblo.Packets.{Packet, Packets, message, bundle, end, next}
use lopack.Sender.State.{Sender, make_sender, setup, clear, send}
use lopack.Sender.Build.{immediate, begin_message, end_message, begin_bundle, begin_bundle_now}
use lopack.Sender.Stream.{Streamed, stream}
use lopack.Sender.Command.{Command, run}
use lopack.Sender.Script.{script, stream_all}
use lopack.Sender.Emit.{idle, building}
use lopack.Sender.Arguments.{writing}
use lopack.Sender.Exceptions.{run-thrown, begin_bundle_now-agrees}
use lopack.Sender.Reachable.{Reach-safe}
use lopack.Sender.Safety.{Reach, made, returns, clear_in_bundle}
use lopack.Sender.Protocol.{
  phase, refuses, judge, judge_all, verdict_of, run_all, run_all-judge_all,
}
use lopack.Sender.Finish.{finishing, ready, Reach-finishing}
use lopack.Sender.Delivery.{Carries, Delivered, deliver}
use lopack.Sender.Lost.{message_after_bundle_lost}
use lopack.Sender.Frame.{SameObjects}
use lopack.Sender.Sequence.{
  send_each, CarriesAll, deliver_each, two_bundles_stuck, second_message_loses_first,
}

-- The nested bundles that testSender sends, and its message to the object.
abbrev inner_contents : Packets
inner_contents =
    next (message (codes "/test5") (Arg.string (codes "foo") ∷ Arg.string (codes "bar") ∷ [])) end

abbrev nested : Packet
nested = bundle immediate (
    next
      (message (codes "/test4")
        (Arg.false_flag ∷ Arg.int32 100 ∷ Arg.float 0x43480000 ∷ Arg.string (codes "kraaa") ∷ []))
      (next (bundle (record { sec = 9; frac = 42949672 }) inner_contents) end))

abbrev object_arguments : List Arg
object_arguments = Arg.int32 123 ∷ Arg.float 0x43e4_63d7 ∷ Arg.string (codes "foo bar") ∷ []

abbrev to_object : Packet
to_object = message (codes "/object") object_arguments

deliver_example : Delivered reference reference_contract 1 start nested
deliver_example = deliver reference reference_contract 1 start nested (omega arith) (omega arith)

deliver_each_example :
    (v : World) × (xs : List Sent) × (send_each reference
        (to_object ∷ nested ∷ [])
        (idle reference 1 start)
      ≡ done (idle reference 1 v))
    × (v.sent ≡ xs)
    × CarriesAll reference reference_contract 1 (to_object ∷ nested ∷ []) xs
    × SameObjects (reference_contract.heap start) (reference_contract.heap v)
deliver_each_example =
    deliver_each reference reference_contract 1 (to_object ∷ nested ∷ []) start (omega arith)
      (omega arith)

abbrev in_message : Sender reference
in_message = writing reference 1 1 [] (codes "/a") false start

abbrev in_bundle : Sender reference
in_bundle = building reference 1 (1 ∷ []) true start

-- A program that made a sender, streamed the start of a message, and goes on with an argument.
abbrev begun : Sender reference
begun = record (make_sender reference start) {
  message = 1;
  world = (reference.message_new start).0;
  message_in_progress = true;
  address_pattern = codes "/a";
}

begun-Reach : Reach reference begun
unfolding make_sender run stream begin_message
begun-Reach = returns (Command.streams (Streamed.begin_message (codes "/a"))) (made start) tt refl

Reach-safe_example :
    (run reference (Command.streams (Streamed.int32 7)) begun ≢ undefined)
    × (begun.message_in_progress ≡ true
        → (begun.message ≢ null)
          × ((reference_contract.heap begun.world).messages begun.message ≢ none))
    × All (λ b. (reference_contract.heap begun.world).bundles b ≢ none) begun.bundles
Reach-safe_example =
    Reach-safe reference reference_contract (Command.streams (Streamed.int32 7)) begun-Reach tt

-- `send` in the middle of a message.
run-thrown_example : in_message ≡ in_message
unfolding run send
run-thrown_example = run-thrown reference Command.send in_message in_message send_exception refl

begin_bundle_now-agrees_example :
    (begin_bundle_now reference in_bundle ≡ begin_bundle reference immediate in_bundle)
    ↔ (in_bundle.bundle_in_progress ≡ in_bundle.message_in_progress)
begin_bundle_now-agrees_example = begin_bundle_now-agrees reference in_bundle

clear_in_bundle_example :
    (begin_message reference (codes "/a") >> end_message reference) (clear reference in_bundle)
    ≡ undefined
clear_in_bundle_example = clear_in_bundle reference in_bundle (codes "/a") refl refl

two_bundles_stuck_example :
    (s : Sender reference) × (stream_all reference
        (script (bundle immediate end) ++ script (bundle immediate inner_contents))
        (idle reference 1 start)
      ≡ done s)
    × (s.bundle_in_progress ≡ true)
    × (send reference s ≡ thrown send_exception s)
two_bundles_stuck_example =
    two_bundles_stuck reference reference_contract 1 start immediate immediate end inner_contents tt
      (omega arith)

second_message_loses_first_example :
    (s : Sender reference) × (stream_all reference
        (script to_object ++ Streamed.begin_message (codes "/quit") ∷ [])
        (idle reference 1 start)
      ≡ done s)
    × ((reference_contract.heap s.world).messages 1 ≡ some object_arguments)
    × (s.message ≢ 1)
    × (s.bundles ≡ [])
second_message_loses_first_example =
    second_message_loses_first reference reference_contract 1 start (codes "/object")
      (codes "/quit") object_arguments (omega arith)

message_new-ne-null : (w : World) → (reference.message_new w).1 ≢ null
message_new-ne-null w = omega arith

address_new-ne-null : (host port : Text) (w : World) → (reference.address_new host port w).1 ≢ null
address_new-ne-null host port w = omega arith

abbrev fresh : Sender reference
fresh = record {
  address = null;
  message = null;
  bundles = [];
  address_pattern = [];
  message_in_progress = false;
  bundle_in_progress = false;
  world = start;
}

run_all-judge_all_example :
    verdict_of (
      run_all reference
        (Command.streams (Streamed.begin_message (codes "/a"))
          ∷ Command.streams Streamed.end_bundle
          ∷ Command.send
          ∷ [])
        fresh)
    ≡ refuses bundle_not_in_progress
        (record { addressed = false; filled = true; writing = true; bundling = false; depth = 0 })
unfolding judge_all judge
run_all-judge_all_example =
    run_all-judge_all reference message_new-ne-null address_new-ne-null
      (Command.streams (Streamed.begin_message (codes "/a"))
        ∷ Command.streams Streamed.end_bundle
        ∷ Command.send
        ∷ [])
      fresh

-- The sender after a call.
abbrev after : Command → Sender reference → Sender reference
after c s = elim (run reference c s) [ done t ↦ t | other ↦ s ]

abbrev set_up : Sender reference
set_up = after (Command.setup (codes "localhost") 9990) (make_sender reference start)

abbrev opened : Sender reference
opened = after (Command.streams (Streamed.begin_bundle immediate)) set_up

abbrev deeper : Sender reference
deeper = after (Command.streams (Streamed.begin_bundle immediate)) opened

deeper-Reach : Reach reference deeper
unfolding run setup stream begin_bundle make_sender
deeper-Reach =
    returns (Command.streams (Streamed.begin_bundle immediate))
      (returns (Command.streams (Streamed.begin_bundle immediate))
        (returns (Command.setup (codes "localhost") 9990) (made start) tt refl) tt refl)
      tt refl

Reach-finishing_example :
    (t : Sender reference) × (run_all reference (finishing (phase deeper)) deeper ≡ done t)
    × (phase t ≡ ready)
unfolding run setup stream begin_bundle make_sender
Reach-finishing_example =
    Reach-finishing reference message_new-ne-null address_new-ne-null deeper-Reach refl (inr refl)

message_after_bundle_lost_example :
    (v : World) × (x : Sent) × (m : Ptr) × ((stream_all reference
            (script (bundle immediate inner_contents) ++ script to_object)
          >> send reference)
        (idle reference 1 start)
      ≡ done (idle reference 1 v))
    × (v.sent ≡ x ∷ [])
    × Carries reference reference_contract 1 (bundle immediate inner_contents) x
    × ((reference_contract.heap v).messages m ≡ some object_arguments)
    × ((reference_contract.heap start).messages m ≡ none)
message_after_bundle_lost_example =
    message_after_bundle_lost reference reference_contract 1 start immediate inner_contents
      (codes "/object") object_arguments (omega arith) (omega arith) (omega arith)
