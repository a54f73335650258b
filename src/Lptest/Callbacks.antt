-- ===== src/Lptest/Callbacks.antt =====
-- The callbacks of the test program as the receiver calls them, and TestReceiver::poll.
use lopack.Prelude.{
  ℕ, zero, suc, Bool, true, false, List, [], ◌∷◌, ◌++◌, Option, none, some, ltb, if◌then◌else◌,
}
use lopack.Prelude.Text.{codes}
use lopack.Outcome.{returned, raised, undetermined}
use lopack.Objects.Dispatch.{Handler}
use lopack.Received.Reader.{Reader}
use lopack.Received.Read.{ReceivedMessage, MessageSource}
use lopack.Receiver.State.{Server, OscReceiver}
use lopack.Receiver.Incoming.{handle_messages}
use lopack.Lptest.Programs.{Shown, object_process, process}

-- The member `done`, what went to std::cout, and whether an exception or undefined behaviour left a
-- callback.
pub record TestState : Type 0 where
  pub done : Bool
  pub shown : List Shown
  pub fault : Bool

module _ {W : Type 0} (read : Reader W) where
  -- The call of Object::processOscMessage.
  unfoldable pub object_callback : ReceivedMessage → MessageSource → Handler (W × TestState)
  unfolding object_process
  object_callback msg source p root (w, c) = elim (object_process read root msg source w) [
    | returned (out, handled) ↦ ((w, record c { shown = c.shown ++ out }), handled)
    | raised e ↦ ((w, record c { fault = true }), false)
    | undetermined ↦ ((w, record c { fault = true }), false)
  ]

  -- The call of TestReceiver::process.
  unfoldable pub process_callback :
      ReceivedMessage → MessageSource → W × TestState → (W × TestState) × Bool
  unfolding process
  process_callback msg source (w, c) = elim (process read c.done msg source w) [
    | returned (out, done, v) ↦ ((v, record c { done = done; shown = c.shown ++ out }), true)
    | raised e ↦ ((w, record c { fault = true }), true)
    | undetermined ↦ ((w, record c { fault = true }), true)
  ]

abbrev pub say : {W : Type 0} → List Shown → OscReceiver W TestState → OscReceiver W TestState
say out r = record r {
  scene = record r.scene { user = record r.scene.user { shown = r.scene.user.shown ++ out } };
}

-- The line for a round in which `num` bytes came.
abbrev pub round_line : ℕ → List Shown
round_line num =
    if ltb 0 num
    then Shown.text (codes "TestReceiver: received ")
      ∷ Shown.nat num
      ∷ Shown.text (codes " bytes\n")
      ∷ []
    else Shown.text (codes "TestReceiver: still waiting ...\n") ∷ []

module _ {W : Type 0} (read : Reader W) (lo : Server W) where
  -- One round of the loop of `poll`; `fuel` is for the receiver's objects.
  unfoldable pub poll_round : ℕ → OscReceiver W TestState → Option (OscReceiver W TestState)
  unfolding handle_messages object_callback process_callback
  poll_round fuel r =
      elim (handle_messages read (object_callback read) (process_callback read) lo fuel 0 r) [
        | none ↦ none
        | some (r', num) ↦ some (say (round_line num) r')
      ]

  -- `rounds` bounds the rounds; `none` is that they ran out.
  unfoldable pub poll_loop :
      (rounds fuel : ℕ) → OscReceiver W TestState → Option (OscReceiver W TestState)
  unfolding poll_round
  poll_loop zero fuel r = none
  poll_loop (suc rounds) fuel r = elim r.scene.user.done [
    | true ↦ some r
    | false ↦ elim (poll_round fuel r) [ none ↦ none | some r' ↦ poll_loop rounds fuel r' ]
  ]

  unfoldable pub poll :
      (rounds fuel : ℕ) → OscReceiver W TestState → Option (OscReceiver W TestState)
  unfolding poll_loop
  poll rounds fuel r =
      poll_loop rounds fuel
        (record r { scene = record r.scene { user = record r.scene.user { done = false } } })
