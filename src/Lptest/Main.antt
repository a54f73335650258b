-- ===== src/Lptest/Main.antt =====
-- main of src/lptest/main.cpp, with testTimeTag.
use lopack.Prelude.{ℕ, false, List, [], ◌∷◌, Option, none, some}
use lopack.Prelude.Text.{codes}
use lopack.Types.{TimeTag}
use lopack.Types.Time.{Doubles, time_tag_ahead, diff}
use lopack.Outcome.{
  Outcome, done, thrown, undefined, Exception, receive_exception, Result, returned, raised,
  undetermined, and_return,
}
use lopack.Liblo.{Liblo, Ptr, update}
use lopack.Received.Reader.{Reader}
use lopack.Objects.Graph.{OscObject, make_object}
use lopack.Receiver.State.{
  Server, Arrival, OscReceiver, make_receiver, setup, add_osc_object, start, stop,
}
use lopack.Receiver.Incoming.{take_in}
use lopack.Sender.{make_sender, destroy}
use lopack.Sender
use lopack.Lptest.TestSender.{Readings, test_sender}
use lopack.Lptest.Callbacks.{TestState, object_callback, process_callback, poll}

module _ (d : Doubles) where
  -- What testTimeTag streams to std::cout, but for the texts between the values.
  pub data TimeShown : Type 0 where
    nat : ℕ → TimeShown
    double : d.Double → TimeShown

  -- testTimeTag, where the clock reads `a`, `b`, `again` and `c` in turn.
  unfoldable pub test_time_tag : (a b again c : TimeTag) → Result (List TimeShown)
  unfolding time_tag_ahead diff
  test_time_tag a b again c = and_return (time_tag_ahead d c 25) (λ t.
      nat a.sec
      ∷ nat a.frac
      ∷ nat b.sec
      ∷ nat b.frac
      ∷ double (diff d b a)
      ∷ nat t.sec
      ∷ nat t.frac
      ∷ double (diff d t again)
      ∷ [])

-- What the clock reads in testTimeTag and in the two runs of testSender, and what happens while main sleeps: what was transmitted comes to the
-- receiver's liblo, and while the thread is started it hands messages over.
pub record Surroundings (V W : Type 0) : Type 0 where
  pub a : TimeTag
  pub b : TimeTag
  pub again : TimeTag
  pub c : TimeTag
  pub first : Readings
  pub second : Readings
  pub settle : V → W → W
  pub meanwhile : V → W → W × List Arrival

-- How main ends: normally, after its handler caught an exception, with one that nothing catches,
-- or in undefined behaviour.
pub data Ending (V R : Type 0) : Type 0 where
  ends : V → R → Ending V R
  catches escapes : Exception → Ending V R
  breaks : Ending V R

module _ (lo : Liblo) where
  -- The end of the scope, also by an exception.
  abbrev pub leave : Outcome (Sender.Sender lo) → Outcome lo.World
  leave (done s) = done (destroy lo s).world
  leave (thrown e s) = thrown e (destroy lo s).world
  leave undefined = undefined

  -- testSender with its sender's set-up and destructor.
  unfoldable pub send_tests : Doubles → Readings → lo.World → Outcome lo.World
  send_tests d r w =
      leave (test_sender lo d r (Sender.setup lo (codes "127.0.0.1") 9990 (make_sender lo w)))

module _ {W : Type 0} where
  -- The program's object at `p` is attached once the receiver was set up, which is before `try`,
  -- and whether or not it was opened.
  abbrev pub with_object : Ptr → OscReceiver W TestState → OscReceiver W TestState
  with_object p r = add_osc_object p (record r {
    scene = record r.scene { store = update r.scene.store p (make_object (codes "/object")) };
  })

  abbrev pub new_receiver : W → (Ptr → OscObject) → OscReceiver W TestState
  new_receiver u store = make_receiver [] u (record {
    store = store;
    user = record { done = false; shown = []; fault = false };
    console = [];
  })

module _ (lo : Liblo) {W : Type 0} (read : Reader W) (server : Server W) where
  abbrev pub End : Type 0
  End = Ending lo.World (OscReceiver W TestState)

  -- The handler of main, which takes ReceiveException alone.
  handler : Exception → End
  handler (receive_exception t) = catches (receive_exception t)
  handler e = escapes e

  unfoldable pub after_tests : Outcome lo.World → (lo.World → Option End) → Option End
  unfolding handler
  after_tests (done v) next = next v
  after_tests (thrown e v) next = some (handler e)
  after_tests undefined next = some breaks

  module _ (d : Doubles) (near : Surroundings lo.World W) (rounds fuel : ℕ) where
    -- The second test, with the thread.
    unfoldable pub thread_test : OscReceiver W TestState → lo.World → Option End
    unfolding after_tests
    thread_test r w =
        let s = start server r in
        after_tests (send_tests lo d near.second w) (λ v.
          let (u, arrivals) = near.meanwhile v s.world in
          elim (take_in read (object_callback read) (process_callback read) fuel arrivals
            (record s { world = u })) [ none ↦ none | some t ↦ some (ends v (stop server t)) ])

    -- The tests inside `try`: without the thread first.
    unfoldable pub receiver_tests : OscReceiver W TestState → lo.World → Option End
    unfolding after_tests thread_test
    receiver_tests r w = after_tests (send_tests lo d near.first w) (λ v.
        elim (poll read server rounds fuel (record r { world = near.settle v r.world })) [
          | none ↦ none
          | some t ↦ thread_test t v
        ])

    -- main; `none` is that the rounds of polling ran out.
    unfoldable pub main : Ptr → (Ptr → OscObject) → lo.World → W → Option End
    unfolding receiver_tests
    main p store w u = elim (test_time_tag d near.a near.b near.again near.c) [
      | raised e ↦ some (escapes e)
      | undetermined ↦ some breaks
      | returned out ↦ elim (setup server 9990 (new_receiver u store)) [
        | thrown e t ↦ some (escapes e)
        | undefined ↦ some breaks
        | done (t, opened) ↦ receiver_tests (with_object p t) w
      ]
    ]
