-- ===== src/Lptest/Intake.antt =====
-- That the test receiver takes in messages that can be read.
use lopack.Prelude.{ℕ, Bool, true, ◌||◌, List, [], ◌∷◌, some, ◌≡◌, ◌≢◌, refl, ap, arith, ◌≤◌}
use lopack.Prelude.Text.{Text, codes, text_eq}
use lopack.Liblo.{Ptr, null, Arg}
use lopack.Received.Reader.{Reader}
use lopack.Received.Read.{receive}
use lopack.Receiver.State.{Arrival, OscReceiver}
use lopack.Receiver.Incoming.{message_cb, take_in}
use lopack.Lptest.Callbacks.{TestState, object_callback, process_callback}
use lopack.Lptest.Handling.{Carry, IsServing, quits, process_message-Handled}

module _ {W : Type 0} (read : Reader W) (p : Ptr) (set : p ≢ null) (fuel : ℕ)
    (enough : 1 ≤ fuel) where
  -- The receiver after the messages were taken in.
  pub record TakenIn (on : Bool) (xs : List (Text × List Arg)) (arrivals : List Arrival)
      (r : OscReceiver W TestState) : Type 0 where
    pub after : OscReceiver W TestState
    pub runs :
        take_in read (object_callback read) (process_callback read) fuel arrivals r ≡ some after
    pub polled : IsServing on p after
    pub done : after.scene.user.done ≡ (quits xs || r.scene.user.done)

  take_in_step :
      (a : Arrival) (rest : List Arrival) (r s t : OscReceiver W TestState) (handled : Bool)
      → message_cb read (object_callback read) (process_callback read) fuel a r ≡ some (s, handled)
      → take_in read (object_callback read) (process_callback read) fuel rest s ≡ some t
      → take_in read (object_callback read) (process_callback read) fuel (a ∷ rest) r ≡ some t
  unfolding take_in
  take_in_step a rest r s t handled one others = rw (take_in, one) others

  pub take_in_lem :
      (on : Bool) (xs : List (Text × List Arg)) (arrivals : List Arrival)
      (r : OscReceiver W TestState)
      → IsServing on p r
      → Carry read xs arrivals
      → TakenIn on xs arrivals r
  unfolding take_in message_cb receive
  take_in_lem on [] [] r v c = record { after = r; runs = refl; polled = v; done = refl }
  take_in_lem on [] (a ∷ rest) r v c = absurd c
  take_in_lem on (x ∷ xs) [] r v c = absurd c
  take_in_lem on ((path, args) ∷ xs) (a ∷ rest) r v (same, holds, nul, more) =
      let one =
        process_message-Handled read on p (record { address_pattern = a.path; message = a.message })
          (record {
            address = read.message_get_source a.message (read.message_incref a.message r.world);
          })
          fuel args (record r { world = read.message_incref a.message r.world }) set
          (record {
            server = v.server;
            running = v.running;
            listens = v.listens;
            attached = v.attached;
            object = v.object;
            sound = v.sound;
          })
          enough holds nul in
      let others = take_in_lem on xs rest one.after one.polled more in
      record {
        after = others.after;
        runs = take_in_step a rest r one.after others.after true one.runs others.runs;
        polled = others.polled;
        done = ground (arith, others.done, one.done, ap (λ t. text_eq t (codes "/quit")) same);
      }

  -- However many messages arrive, if they can be read and the receiver has the test program's object
  -- and nothing has gone wrong: all are taken in, nothing goes wrong, the object stays attached, and
  -- `done` is set exactly if it was or one of them has the address `/quit`.
  pub take_in-quits :
      (on : Bool) (xs : List (Text × List Arg)) (arrivals : List Arrival)
      (r : OscReceiver W TestState)
      → IsServing on p r
      → Carry read xs arrivals
      → (t : OscReceiver W TestState) × (take_in read
            (object_callback read)
            (process_callback read)
            fuel
            arrivals
            r
          ≡ some t)
        × IsServing on p t
        × (t.scene.user.done ≡ (quits xs || r.scene.user.done))
  take_in-quits on xs arrivals r v c =
      let all = take_in_lem on xs arrivals r v c in (all.after, all.runs, all.polled, all.done)
