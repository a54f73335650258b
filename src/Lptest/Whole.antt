-- ===== src/Lptest/Whole.antt =====
-- How main of src/lptest/main.cpp ends.
use lopack.Prelude.{
  ℕ, suc, Bool, true, false, List, ◌++◌, none, some, ◌≡◌, ◌≢◌, refl, ◌∙◌, arith, ◌≤◌, ◌<◌,
}
use lopack.Prelude.Text.{Text, codes, c_string}
use lopack.Prelude.Decimal.{decimal}
use lopack.Types.{TimeTag}
use lopack.Types.Time.{Doubles, time_tag_ahead}
use lopack.Outcome.{done, returned}
use lopack.Liblo.{Liblo, Ptr, null, Arg, Sent}
use lopack.Liblo.Contract.{Contract}
use lopack.Received.Reader.{Reader}
use lopack.Objects.Graph.{OscObject}
use lopack.Receiver.State.{
  Server, opened, OscReceiver, make_receiver, setup, add_osc_object, logged,
}
use lopack.Log.{error_line}
use lopack.Sender.Sequence.{CarriesAll}
use lopack.Lptest.TestSender.{test_packets}
use lopack.Lptest.Callbacks.{TestState}
use lopack.Lptest.Handling.{Carry}
use lopack.Lptest.Polling.{QuitsIn, not_done, poll-null}
use lopack.Lptest.Main.{
  TimeShown, test_time_tag, Surroundings, ends, receiver_tests, with_object, new_receiver, main,
}
use lopack.Lptest.Phases.{
  send_tests-SentTests, opened_receiver, setup-opened, settled, receiver_tests-ends,
}

module _ (lo : Liblo) (contract : Contract lo) {W : Type 0} (read : Reader W) (server : Server W)
    (d : Doubles) (near : Surroundings lo.World W) (p : Ptr) (fuel : ℕ) where
  open contract use {sent}

  main-setup :
      (rounds : ℕ) (store : Ptr → OscObject) (w : lo.World) (u : W) (out : List (TimeShown d))
      (t : OscReceiver W TestState) (ok : Bool)
      → test_time_tag d near.a near.b near.again near.c ≡ returned out
      → setup server 9990 (new_receiver u store) ≡ done (t, ok)
      → main lo read server d near rounds fuel p store w u
        ≡ receiver_tests lo read server d near rounds fuel (with_object p t) w
  unfolding main
  main-setup rounds store w u out t ok timed ready = ground (arith, timed, ready)

  setup-null :
      (u v : W) (store : Ptr → OscObject)
      → server.server_thread_new (c_string (decimal 9990)) u ≡ (v, opened null)
      → (t : OscReceiver W TestState) × (setup server 9990 (new_receiver u store) ≡ done (t, false))
        × (t.server_thread ≡ null)
  unfolding setup make_receiver
  setup-null u v store unopened = (
    logged (error_line (codes "OscReceiver: could not create server"))
        (record (new_receiver u store) { world = v }),
    ground (arith, unopened),
    refl,
  )

  with_object-server_thread :
      (t : OscReceiver W TestState) → (with_object p t).server_thread ≡ t.server_thread
  unfolding add_osc_object
  with_object-server_thread t = ground arith

  receiver_tests-null :
      (rounds : ℕ) (r : OscReceiver W TestState) (w : lo.World) (soon : TimeTag)
      → time_tag_ahead d near.first.later 10 ≡ returned soon
      → r.server_thread ≡ null
      → ((host port : Text) (x : lo.World) → (lo.address_new host port x).1 ≢ null)
      → receiver_tests lo read server d near rounds fuel r w ≡ none
  unfolding receiver_tests
  receiver_tests-null rounds r w soon timed unset addressed =
      let host = c_string (codes "127.0.0.1") in
      let port = c_string (decimal 9990) in
      let tests =
        send_tests-SentTests lo contract d near.first soon w timed (addressed host port w) in
      let x = lo.address_free (lo.address_new host port w).1 tests.world in
      ground (
        arith,
        tests.runs,
        poll-null read server rounds fuel (record r { world = near.settle x r.world }) unset,
      )

  -- If liblo gives NULL for the server and reports no error, main polls and does not end: no bound on
  -- the rounds is enough. (It does not look at what `setup` returns.)
  main-null :
      (rounds : ℕ) (u v : W) (store : Ptr → OscObject) (w : lo.World) (out : List (TimeShown d))
      (soon : TimeTag)
      → test_time_tag d near.a near.b near.again near.c ≡ returned out
      → time_tag_ahead d near.first.later 10 ≡ returned soon
      → server.server_thread_new (c_string (decimal 9990)) u ≡ (v, opened null)
      → ((host port : Text) (x : lo.World) → (lo.address_new host port x).1 ≢ null)
      → main lo read server d near rounds fuel p store w u ≡ none
  main-null rounds u v store w out soon timed first unopened addressed =
      let (t, ready, unset) = setup-null u v store unopened in
      main-setup rounds store w u out t false timed ready
      ∙ receiver_tests-null rounds (with_object p t) w soon first
          (with_object-server_thread t ∙ unset) addressed

  module _ (set : p ≢ null) (enough : 1 ≤ fuel) where
    -- main ends normally, with the receiver stopped, `done` set and no fault: if liblo makes
    -- addresses and opens the server, the time tags of testTimeTag and those of testSender
    -- are in range, what testSender
    -- transmits comes to the receiver so that a message with the address `/quit` is among what comes
    -- in round `n` of polling and all until then can be read, and what the thread hands over can be
    -- read. A bound on the rounds of two more than `n` is enough, and fuel 1 for the object.
    pub main-ends :
        (n rounds : ℕ) (q : Ptr) (u v : W) (store : Ptr → OscObject) (w : lo.World)
        (out : List (TimeShown d)) (soon ahead : TimeTag)
        → test_time_tag d near.a near.b near.again near.c ≡ returned out
        → time_tag_ahead d near.first.later 10 ≡ returned soon
        → time_tag_ahead d near.second.later 10 ≡ returned ahead
        → server.server_thread_new (c_string (decimal 9990)) u ≡ (v, opened q)
        → q ≢ null
        → ((host port : Text) (x : lo.World) → (lo.address_new host port x).1 ≢ null)
        → ((x : lo.World) (xs : List Sent)
            → let made =
                lo.address_new (c_string (codes "127.0.0.1")) (c_string (decimal 9990)) w in
              sent x ≡ sent made.0 ++ xs
              → CarriesAll lo contract made.1 (test_packets near.first.now near.first.began soon) xs
              → QuitsIn read p set fuel enough server n (
                  not_done read p set fuel enough server (
                    settled lo contract read server d near p set fuel enough
                      (lo.address_free made.1 x)
                      q
                      u
                      v
                      store)))
        → suc n < rounds
        → ((x : lo.World) (u' : W)
            → (xs : List (Text × List Arg)) × Carry read xs (near.meanwhile x u').1)
        → (x : lo.World) × (t : OscReceiver W TestState) × (main lo read server d near rounds fuel p
              store w u
            ≡ some (ends x t))
          × (t.is_running ≡ false)
          × (t.scene.user.fault ≡ false)
          × (t.scene.user.done ≡ true)
    main-ends n rounds q u v store w out soon ahead timed first second opens opened_set addressed
          brings more hands =
        let (x, t, runs, stopped, sound, quit) =
          receiver_tests-ends lo contract read server d near p set fuel enough n rounds q u v store
            w soon ahead first second opened_set addressed brings more hands in
        (
          x,
          t,
          main-setup rounds store w u out (opened_receiver server q u v store) true timed
                (setup-opened server q u v store opens opened_set)
              ∙ runs,
          stopped,
          sound,
          quit,
        )
