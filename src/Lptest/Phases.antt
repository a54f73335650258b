-- ===== src/Lptest/Phases.antt =====
-- The phases of main of src/lptest/main.cpp: testSender in its scope, the set-up of the receiver, and
-- the tests inside `try`.
use lopack.Prelude.{
  ℕ, suc, Bool, true, false, ◌||◌, List, ◌++◌, some, ◌≡◌, ◌≢◌, ap, ◌∙◌, arith, ◌≤◌, ◌<◌,
}
use lopack.Prelude.Text.{Text, codes, c_string}
use lopack.Prelude.Decimal.{decimal}
use lopack.Types.{TimeTag}
use lopack.Types.Time.{Doubles, time_tag_ahead}
use lopack.Outcome.{Outcome, done, returned}
use lopack.Liblo.{Liblo, Ptr, null, Arg, Sent}
use lopack.Liblo.Updates.{update_self}
use lopack.Liblo.Contract.{Contract}
use lopack.Received.Reader.{Reader}
use lopack.Objects.Graph.{OscObject, make_object}
use lopack.Receiver.State.{
  Server, opened, OscReceiver, make_receiver, setup, add_osc_object, start, stop,
}
use lopack.Sender.Scope.{setup-idle, destroy-idle}
use lopack.Sender.Sequence.{CarriesAll}
use lopack.Lptest.TestSender.{Readings, test_sender, test_packets, test_sender-delivers}
use lopack.Lptest.Callbacks.{TestState}
use lopack.Lptest.Handling.{Carry, IsServing, quits}
use lopack.Lptest.Intake.{take_in-quits}
use lopack.Lptest.Polling.{QuitsIn, not_done, poll-ends}
use lopack.Lptest.Main.{
  Surroundings, ends, leave, send_tests, thread_test, receiver_tests, with_object, new_receiver,
}

module _ (lo : Liblo) (contract : Contract lo) where
  open contract use {sent}

  -- testSender in its own scope: what it transmits, and the state in which it leaves liblo.
  pub record SentTests (r : Readings) (ahead : TimeTag) (a : Ptr) (w : lo.World)
      (o : Outcome lo.World) : Type 0 where
    pub world : lo.World
    pub transmissions : List Sent
    pub runs : o ≡ done (lo.address_free a world)
    pub sends : sent world ≡ sent w ++ transmissions
    pub carry : CarriesAll lo contract a (test_packets r.now r.began ahead) transmissions

  pub send_tests-SentTests :
      (d : Doubles) (r : Readings) (ahead : TimeTag) (w : lo.World)
      → time_tag_ahead d r.later 10 ≡ returned ahead
      → let made = lo.address_new (c_string (codes "127.0.0.1")) (c_string (decimal 9990)) w in
        made.1 ≢ null → SentTests r ahead made.1 made.0 (send_tests lo d r w)
  unfolding send_tests
  send_tests-SentTests d r ahead w timed set =
      let made = lo.address_new (c_string (codes "127.0.0.1")) (c_string (decimal 9990)) w in
      let (v, xs, runs, sends, carry, same) =
        test_sender-delivers lo contract d r ahead made.1 made.0 timed set in
      record {
        world = v;
        transmissions = xs;
        runs =
            ap (λ s. leave lo (test_sender lo d r s)) (setup-idle lo (codes "127.0.0.1") 9990 w)
            ∙ ap (leave lo) runs
            ∙ ap done (destroy-idle lo made.1 v set);
        sends = sends;
        carry = carry;
      }

module _ {W : Type 0} (server : Server W) where
  -- The receiver after its set-up, where liblo opens its server.
  abbrev pub opened_receiver : Ptr → W → W → (Ptr → OscObject) → OscReceiver W TestState
  opened_receiver q u v store = record (new_receiver u store) {
    server_thread = q;
    world = server.server_thread_add_method q v;
  }

  pub setup-opened :
      (q : Ptr) (u v : W) (store : Ptr → OscObject)
      → server.server_thread_new (c_string (decimal 9990)) u ≡ (v, opened q)
      → q ≢ null
      → setup server 9990 (new_receiver u store) ≡ done (opened_receiver q u v store, true)
  unfolding setup make_receiver
  setup-opened q u v store opens set = ground (arith, opens, set)

  with_object-IsServing :
      (p q : Ptr) (u v : W) (store : Ptr → OscObject)
      → p ≢ null
      → q ≢ null
      → IsServing false p (with_object p (opened_receiver q u v store))
  unfolding make_receiver add_osc_object
  with_object-IsServing p q u v store set set' = record {
    server = ground (arith, set');
    running = ground arith;
    listens = ground arith;
    attached = ground (arith, set);
    object = ground (arith, set, update_self store p (make_object (codes "/object")));
    sound = ground arith;
  }

or_true : (a : Bool) {b : Bool} → b ≡ true → (a || b) ≡ true
or_true a e = ground (arith, e)

module _ {W : Type 0} {p : Ptr} where
  IsServing-world :
      {on : Bool} {r : OscReceiver W TestState} (u : W)
      → IsServing on p r
      → IsServing on p (record r { world = u })
  IsServing-world u v = record {
    server = v.server;
    running = v.running;
    listens = v.listens;
    attached = v.attached;
    object = v.object;
    sound = v.sound;
  }

  module _ (server : Server W) where
    start-IsServing :
        (r : OscReceiver W TestState) → IsServing false p r → IsServing true p (start server r)
    unfolding start
    start-IsServing r v = record {
      server = ground (arith, v.server);
      running = ground (arith, v.server);
      listens = ground (arith, v.server, v.listens);
      attached = ground (arith, v.server, v.attached);
      object = ground (arith, v.server, v.object);
      sound = ground (arith, v.server, v.sound);
    }

    start-scene :
        (r : OscReceiver W TestState) → IsServing false p r → (start server r).scene ≡ r.scene
    unfolding start
    start-scene r v = ground (arith, v.server)

    -- `stop` of a receiver that has a server takes the flag down and leaves the program's state.
    stop-scene :
        (t : OscReceiver W TestState) {on : Bool}
        → IsServing on p t
        → ((stop server t).is_running ≡ false) × ((stop server t).scene ≡ t.scene)
    unfolding stop
    stop-scene t v = (ground (arith, v.server), ground (arith, v.server))

module _ (lo : Liblo) (contract : Contract lo) {W : Type 0} (read : Reader W) (server : Server W)
    (d : Doubles) (near : Surroundings lo.World W) (p : Ptr) (set : p ≢ null) (fuel : ℕ)
    (enough : 1 ≤ fuel) where
  open contract use {sent}

  -- After the first polling: the thread's messages are taken in, and main ends.
  thread_test-ends :
      (rounds : ℕ) (r : OscReceiver W TestState) (w : lo.World) (ahead : TimeTag)
      → time_tag_ahead d near.second.later 10 ≡ returned ahead
      → IsServing false p r
      → r.scene.user.done ≡ true
      → ((host port : Text) (v : lo.World) → (lo.address_new host port v).1 ≢ null)
      → ((v : lo.World) (u : W)
          → (xs : List (Text × List Arg)) × Carry read xs (near.meanwhile v u).1)
      → (v : lo.World) × (t : OscReceiver W TestState) × (thread_test lo read server d near rounds
            fuel r w
          ≡ some (ends v t))
        × (t.is_running ≡ false)
        × (t.scene.user.fault ≡ false)
        × (t.scene.user.done ≡ true)
  unfolding thread_test
  thread_test-ends rounds r w ahead timed v quit addressed hands =
      let host = c_string (codes "127.0.0.1") in
      let port = c_string (decimal 9990) in
      let tests =
        send_tests-SentTests lo contract d near.second ahead w timed (addressed host port w) in
      let s = start server r in
      let x = lo.address_free (lo.address_new host port w).1 tests.world in
      let (u, arrivals) = near.meanwhile x s.world in
      let (xs, carried) = hands x s.world in
      let started = IsServing-world u (start-IsServing server r v) in
      let (t, taken, serving, quit') =
        take_in-quits read p set fuel enough true xs arrivals (record s { world = u }) started
          carried in
      let (stopped, same) = stop-scene server t serving in
      (
        x,
        stop server t,
        ground (arith, tests.runs, taken),
        stopped,
        ap (λ c. c.user.fault) same ∙ serving.sound,
        ap (λ c. c.user.done) same
            ∙ quit'
            ∙ or_true (quits xs) (ap (λ c. c.user.done) (start-scene server r v) ∙ quit),
      )

  -- The receiver that main polls, after testSender left liblo in state `x`.
  abbrev pub settled : lo.World → Ptr → W → W → (Ptr → OscObject) → OscReceiver W TestState
  settled x q u v store =
      let r = with_object p (opened_receiver server q u v store) in
      record r { world = near.settle x r.world }

  pub receiver_tests-ends :
      (n rounds : ℕ) (q : Ptr) (u v : W) (store : Ptr → OscObject) (w : lo.World)
      (soon ahead : TimeTag)
      → time_tag_ahead d near.first.later 10 ≡ returned soon
      → time_tag_ahead d near.second.later 10 ≡ returned ahead
      → q ≢ null
      → ((host port : Text) (x : lo.World) → (lo.address_new host port x).1 ≢ null)
      → ((x : lo.World) (xs : List Sent)
          → let made = lo.address_new (c_string (codes "127.0.0.1")) (c_string (decimal 9990)) w in
            sent x ≡ sent made.0 ++ xs
            → CarriesAll lo contract made.1 (test_packets near.first.now near.first.began soon) xs
            → QuitsIn read p set fuel enough server n (
                not_done read p set fuel enough server
                  (settled (lo.address_free made.1 x) q u v store)))
      → suc n < rounds
      → ((x : lo.World) (u' : W)
          → (xs : List (Text × List Arg)) × Carry read xs (near.meanwhile x u').1)
      → (x : lo.World) × (t : OscReceiver W TestState) × (receiver_tests lo read server d near
            rounds fuel
            (with_object p (opened_receiver server q u v store))
            w
          ≡ some (ends x t))
        × (t.is_running ≡ false)
        × (t.scene.user.fault ≡ false)
        × (t.scene.user.done ≡ true)
  unfolding receiver_tests
  receiver_tests-ends n rounds q u v store w soon ahead timed timed' opened_set addressed brings
        more hands =
      let host = c_string (codes "127.0.0.1") in
      let port = c_string (decimal 9990) in
      let made = lo.address_new host port w in
      let tests =
        send_tests-SentTests lo contract d near.first soon w timed (addressed host port w) in
      let x = lo.address_free made.1 tests.world in
      let (s, polls, quit, serving) =
        poll-ends read p set fuel enough server n rounds (settled x q u v store)
          (IsServing-world (settled x q u v store).world
            (with_object-IsServing server p q u v store set opened_set))
          (brings tests.world tests.transmissions tests.sends tests.carry) more in
      let (y, t, rest, stopped, sound, quit') =
        thread_test-ends rounds s x ahead timed' serving quit addressed hands in
      (y, t, ground (arith, tests.runs, polls, rest), stopped, sound, quit')
