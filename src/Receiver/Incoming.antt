-- ===== src/Receiver/Incoming.antt =====
-- processMessage, the callback that leads to it, and manual polling. The virtual functions, which the
-- program supplies, are parameters: `handle` of the objects and `process` of the receiver.
-- They may read and change liblo's state.
use lopack.Prelude.{
  ℕ, Bool, true, false, not, List, [], ◌∷◌, ◌++◌, Option, none, some, ◌==◌, if◌then◌else◌,
}
use lopack.Prelude.Text.{codes}
use lopack.Liblo.{Ptr, null}
use lopack.Log.{warning, error_line}
use lopack.Received.Reader.{Reader}
use lopack.Received.Read.{ReceivedMessage, MessageSource, receive}
use lopack.Objects.Dispatch.{World, Handler, process_osc}
use lopack.Receiver.State.{Server, Arrival, OscReceiver, is_set, logged, server_of}

module _ {S : Type 0} (handle : Handler S) where
  -- The loop over the receiver's objects: the entries that are left, the scene, and whether one
  -- handled the message. `none` is fuel that ran out in an object.
  unfoldable pub offer_objects : ℕ → List Ptr → World S → Option (List Ptr × World S × Bool)
  unfolding process_osc
  offer_objects fuel [] w = some ([], w, false)
  offer_objects fuel (q ∷ qs) w = elim (q == null) [
    | true ↦ offer_objects fuel qs (record w {
      console = w.console ++ warning (codes "OscReceiver: removed NULL object") ∷ [];
    })
    | false ↦ elim (process_osc handle fuel q w) [
      | none ↦ none
      | some (w', handled) ↦ elim handled [
        | true ↦ some (q ∷ qs, w', true)
        | false ↦ elim (offer_objects fuel qs w') [
          | none ↦ none
          | some (left, w'', done) ↦ some (q ∷ left, w'', done)
        ]
      ]
    ]
  ]

module _ {W S : Type 0} where
  -- The scene with liblo's state beside the program's, as the callbacks see it, and what they leave.
  abbrev pub inside : OscReceiver W S → World (W × S)
  inside r = record {
    store = r.scene.store;
    user = (r.world, r.scene.user);
    console = r.scene.console;
  }

  abbrev pub outside : OscReceiver W S → World (W × S) → OscReceiver W S
  outside r w = record r {
    world = w.user.0;
    scene = record { store = w.store; user = w.user.1; console = w.console };
  }

module _ {W S : Type 0} (read : Reader W)
    (handle : ReceivedMessage → MessageSource → Handler (W × S))
    (process : ReceivedMessage → MessageSource → W × S → (W × S) × Bool) where
  -- The user callback, when no object handled the message.
  finish_message :
      ReceivedMessage
      → MessageSource
      → OscReceiver W S
      → List Ptr × World (W × S) × Bool
      → OscReceiver W S × Bool
  finish_message msg source r (left, w, true) = (record (outside r w) { objects = left }, true)
  finish_message msg source r (left, w, false) =
      let (user, handled) = process msg source w.user in
      (record (outside r (record w { user = user })) { objects = left }, handled)

  unfoldable pub process_message :
      ℕ → ReceivedMessage → MessageSource → OscReceiver W S → Option (OscReceiver W S × Bool)
  unfolding finish_message offer_objects
  process_message fuel msg source r =
      if r.ignore_messages
      then some (r, false)
      else elim (offer_objects (handle msg source) fuel r.objects (inside r)) [
        | none ↦ none
        | some (left, w, done) ↦ some (finish_message msg source r (left, w, done))
      ]

  -- messageCB: it wraps the message and the address, and tells whether the message was handled.
  unfoldable pub message_cb : ℕ → Arrival → OscReceiver W S → Option (OscReceiver W S × Bool)
  unfolding process_message
  message_cb fuel a r =
      let (msg, w) = receive read a.path a.message r.world in
      process_message fuel msg (record { address = read.message_get_source a.message w })
        (record r { world = w })

  -- liblo calls messageCB for each message that it takes in.
  unfoldable pub take_in : ℕ → List Arrival → OscReceiver W S → Option (OscReceiver W S)
  unfolding message_cb
  take_in fuel [] r = some r
  take_in fuel (a ∷ rest) r = elim (message_cb fuel a r) [
    | none ↦ none
    | some (r', handled) ↦ take_in fuel rest r'
  ]

  unfoldable pub handle_messages : Server W → ℕ → ℕ → OscReceiver W S → Option (OscReceiver W S × ℕ)
  unfolding take_in
  handle_messages lo fuel timeout r =
      if not (is_set r.server_thread)
      then some
          (logged (error_line (codes "OscReceiver: cannot handle messages, address not set")) r, 0)
      else (if r.is_running
          then some (
            logged
                (warning (
                  codes "OscReceiver: you don't need to handle messages manually "
                  ++ codes "when the thread is already running"))
                r,
            0,
          )
          else (let (w, bytes, arrivals) =
                lo.server_recv_noblock (server_of lo r) timeout r.world in
              elim (take_in fuel arrivals (record r { world = w })) [
                | none ↦ none
                | some r' ↦ some (r', bytes)
              ]))
