-- ===== src/Lptest/RunTests.antt =====
-- Examples: a receiver that takes in a greeting, polls until it has one, and main.
use lopack.Prelude.{
  ℕ, zero, suc, none, true, sym, ◌∙◌, false, List, [], ◌∷◌, some, ◌≡◌, refl, arith, subst,
}
use mathlib.Core.Option.{some-injective}
use lopack.Prelude.Text.{Text, codes, text_eq}
use lopack.Types.{TimeTag}
use lopack.Outcome.{returned}
use lopack.Liblo.{Ptr, null, Arg}
use lopack.Objects.Graph.{make_object}
use lopack.Received.Reader.{Reader}
use lopack.Receiver.State.{Server, opened, Arrival, OscReceiver}
use lopack.Receiver.Incoming.{take_in, handle_messages}
use lopack.Liblo.Reference.{World, start, reference, reference_contract}
use lopack.Received.Example.{nth, reader_of, reader_of-Contents}
use lopack.Lptest.Parsing.{HasNulArg}
use lopack.Lptest.Callbacks.{
  TestState, object_callback, process_callback, say, round_line, poll_round, poll,
}
use lopack.Lptest.Handling.{Carry, IsServing}
use lopack.Lptest.Intake.{take_in-quits}
use lopack.Lptest.Polling.{QuitsIn, quits_now, quits_later, poll-ends}
use lopack.Types.Time.{Doubles, add, time_tag_ahead}
use lopack.Objects.Graph.{OscObject}
use lopack.Lptest.Main.{TimeShown, nat, double, test_time_tag, Surroundings, ends, main}
use lopack.Lptest.Whole.{main-ends}
use lopack.Prelude.{◌+◌, ◌*◌, ◌/◌, ◌≢◌}

abbrev pub polled : {W : Type 0} → W → OscReceiver W TestState
polled w = record {
  osc_root_address = [];
  server_thread = 8;
  is_multicast = false;
  is_running = false;
  ignore_messages = false;
  objects = 2 ∷ [];
  world = w;
  scene = record {
    store = λ p. make_object (codes "/object");
    user = (record { done = false; shown = []; fault = false });
    console = [];
  };
}

pub polled-IsServing : {W : Type 0} {w : W} → IsServing false 2 (polled w)
polled-IsServing = record {
  server = refl;
  running = refl;
  listens = refl;
  attached = refl;
  object = refl;
  sound = refl;
}

-- A greeting, then the end.
abbrev greeting : List (Text × List Arg)
greeting = (codes "/hello", Arg.int32 5 ∷ []) ∷ (codes "/quit", []) ∷ []

abbrev greeting_reader : {W : Type 0} → Reader W
greeting_reader = reader_of (nth greeting)

abbrev greeting_arrives : List Arrival
greeting_arrives =
    record { path = codes "/hello"; message = 0 }
    ∷ record { path = codes "/quit"; message = 1 }
    ∷ []

no_argument : (b : Arg) → none ≡ some b → HasNulArg b
no_argument b e = cc

greeting_carried : {W : Type 0} → Carry (greeting_reader {W = W}) greeting greeting_arrives
greeting_carried = (
  refl,
  reader_of-Contents (nth greeting) 0,
  no_argument,
  (refl, reader_of-Contents (nth greeting) 1, no_argument, tt),
)

take_in-quits_example :
    (t : OscReceiver Unit TestState) × (take_in greeting_reader
        (object_callback greeting_reader)
        (process_callback greeting_reader)
        1
        greeting_arrives
        (polled tt)
      ≡ some t)
    × IsServing false 2 t
    × (t.scene.user.done ≡ true)
unfolding text_eq
take_in-quits_example =
    take_in-quits greeting_reader 2 (omega arith) 1 (omega arith) false greeting greeting_arrives
      (polled tt) polled-IsServing greeting_carried

-- Nothing comes in the first round, and the greeting in each later one.
abbrev waiting_server : Server ℕ
waiting_server = record {
  server_thread_new = λ port w. (w, opened 8);
  server_thread_new_multicast = λ group port w. (w, opened 8);
  server_thread_add_method = λ p w. w;
  server_thread_start = λ p w. w;
  server_thread_stop = λ p w. w;
  server_thread_get_server = λ p w. p;
  server_recv_noblock =
      λ p timeout w. elim w [ zero ↦ (1, 0, []) | suc k ↦ (suc k, 40, greeting_arrives) ];
  url_get_hostname = λ url. codes "localhost";
  server_get_url = λ p w. codes "osc.udp://localhost:9990/";
  server_get_port = λ p w. 9990;
}

abbrev waited : OscReceiver ℕ TestState
waited = say (round_line 0) (polled 1)

first_round : poll_round greeting_reader waiting_server 1 (polled 0) ≡ some waited
unfolding poll_round handle_messages take_in
first_round = refl

quits_next : QuitsIn greeting_reader 2 (omega arith) 1 (omega arith) waiting_server 1 (polled 0)
unfolding text_eq
quits_next =
    quits_later {xs = []}
      (record { world = 1; bytes = 0; arrivals = []; received = refl; carry = tt })
      (λ s e.
        subst (QuitsIn greeting_reader 2 (omega arith) 1 (omega arith) waiting_server 0)
          (some-injective waited s (sym first_round ∙ e))
          (quits_now {xs = greeting}
            (record {
              world = 1;
              bytes = 40;
              arrivals = greeting_arrives;
              received = refl;
              carry = greeting_carried;
            })
            refl))

poll-ends_example :
    (t : OscReceiver ℕ TestState) × (poll greeting_reader waiting_server 3 1 (polled 0) ≡ some t)
    × (t.scene.user.done ≡ true)
    × IsServing false 2 t
poll-ends_example =
    poll-ends greeting_reader 2 (omega arith) 1 (omega arith) waiting_server 1 3 (polled 0)
      polled-IsServing quits_next (omega arith)

-- Doubles that are whole numbers.
abbrev pub whole : Doubles
whole = record {
  Double = ℕ;
  of_nat = λ n. n;
  add = λ x y. x + y;
  mul = λ x y. x * y;
  div = λ x y. x / y;
  thousandth = 4294967;
  tick = 1;
  truncate = λ x. x;
  timetag_diff = λ a b. 0;
}

-- Each poll brings the greeting, and so does the thread.
abbrev prompt_server : Server Unit
prompt_server = record {
  server_thread_new = λ port w. (w, opened 8);
  server_thread_new_multicast = λ group port w. (w, opened 8);
  server_thread_add_method = λ p w. w;
  server_thread_start = λ p w. w;
  server_thread_stop = λ p w. w;
  server_thread_get_server = λ p w. p;
  server_recv_noblock = λ p timeout w. (w, 40, greeting_arrives);
  url_get_hostname = λ url. codes "localhost";
  server_get_url = λ p w. codes "osc.udp://localhost:9990/";
  server_get_port = λ p w. 9990;
}

abbrev pub noon : TimeTag
noon = record { sec = 43200; frac = 0 }

abbrev at_noon : Surroundings World Unit
at_noon = record {
  a = noon;
  b = noon;
  again = noon;
  c = noon;
  first = record { now = noon; began = noon; later = noon };
  second = record { now = noon; began = noon; later = noon };
  settle = λ v u. u;
  meanwhile = λ v u. (u, greeting_arrives);
}

abbrev no_objects : Ptr → OscObject
no_objects p = make_object []

abbrev time_tags : List (TimeShown whole)
time_tags =
    nat 43200 ∷ nat 0 ∷ nat 43200 ∷ nat 0 ∷ double 0 ∷ nat 43200 ∷ nat 107374175 ∷ double 0 ∷ []

timed : test_time_tag whole noon noon noon noon ≡ returned time_tags
unfolding test_time_tag add
timed = refl

-- Ten thousandths of a second after noon.
abbrev pub soon : TimeTag
soon = record { sec = 43200; frac = 42949670 }

pub in_range : time_tag_ahead whole noon 10 ≡ returned soon
unfolding time_tag_ahead
in_range = refl

addressed : (host port : Text) (x : World) → (reference.address_new host port x).1 ≢ null
addressed host port x = omega arith

main-ends_example :
    (x : World) × (t : OscReceiver Unit TestState) × (main reference greeting_reader prompt_server
        whole at_noon 2 1 2 no_objects start tt
      ≡ some (ends x t))
    × (t.is_running ≡ false)
    × (t.scene.user.fault ≡ false)
    × (t.scene.user.done ≡ true)
unfolding text_eq
main-ends_example =
    main-ends reference reference_contract greeting_reader prompt_server whole at_noon 2 1
      (omega arith) (omega arith) 0 2 8 tt tt no_objects start time_tags soon soon timed in_range
      in_range refl (omega arith) addressed
      (λ x xs sends carry.
        quits_now {xs = greeting}
          (record {
            world = tt;
            bytes = 40;
            arrivals = greeting_arrives;
            received = refl;
            carry = greeting_carried;
          })
          refl)
      (omega arith) (λ x u. (greeting, greeting_carried))
