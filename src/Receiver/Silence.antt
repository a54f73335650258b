-- ===== src/Receiver/Silence.antt =====
-- When no message reaches the program: while the receiver is not running, and while it ignores.
use lopack.Prelude.{ℕ, Bool, true, false, List, some, ◌≡◌, refl, sym, ap, ◌∙◌, arith, inl, inr, All}
use lopack.Received.Reader.{Reader}
use lopack.Received.Read.{ReceivedMessage, MessageSource}
use lopack.Objects.Dispatch.{Handler}
use lopack.Receiver.State.{
  Server, Arrival, OscReceiver, setup, setup_multicast, start, stop, clear, ignore_messages,
  add_osc_object, remove_osc_object, remove_all_osc_objects,
}
use lopack.Receiver.Incoming.{process_message, message_cb, handle_messages}
use lopack.Receiver.Messages.{take_in-ignored}
use mathlib.Core.Option.{some-injective}
use lopack.Receiver.Life.{Call, starts, stops, clears, ignores, call}
use lopack.Receiver.Threads.{
  Event, called, polled, Runs, stays, calls, polls, comes, message_cb-Kept, handle_messages-Kept,
  handle_messages-cases,
}

module _ {W S : Type 0} (read : Reader W) (lo : Server W)
    (handle : ReceivedMessage → MessageSource → Handler (W × S))
    (process : ReceivedMessage → MessageSource → W × S → (W × S) × Bool) (fuel : ℕ) where
  call-user : (c : Call) (r : OscReceiver W S) → (call lo c r).scene.user ≡ r.scene.user
  unfolding call setup setup_multicast start stop clear ignore_messages add_osc_object
      remove_osc_object remove_all_osc_objects
  call-user c r = ground arith

  -- Neither a start nor a poll.
  abbrev IsQuiet : Event → Type 0
  IsQuiet (called starts) = ⊥
  IsQuiet polled = ⊥
  IsQuiet _ = Unit

  call-stopped :
      (c : Call) (r : OscReceiver W S)
      → IsQuiet (called c)
      → r.is_running ≡ false
      → (call lo c r).is_running ≡ false
  unfolding call setup setup_multicast start stop clear ignore_messages add_osc_object
      remove_osc_object remove_all_osc_objects
  call-stopped starts r q off = absurd q
  call-stopped c r q off = ground (arith, off)

  -- While a receiver is not running, no messages reach the program: until the next start or poll,
  -- whatever else happens, the program's state stays as it is, and the receiver not running.
  Runs-stopped :
      {r s : OscReceiver W S} {es : List Event}
      → Runs read lo handle process fuel r es s
      → r.is_running ≡ false
      → All IsQuiet es
      → (s.scene.user ≡ r.scene.user) × (s.is_running ≡ false)
  Runs-stopped stays off quiet = (refl, off)
  Runs-stopped (calls {r} c rest) off quiet =
      let (same, still) = Runs-stopped rest (call-stopped c r quiet.0 off) quiet.1 in
      (same ∙ call-user c r, still)
  Runs-stopped (polls timeout bytes e rest) off quiet = absurd quiet.0
  Runs-stopped (comes a handled on e rest) off quiet = ground (arith, on, off)

  -- Not a call that ends ignoring: `ignoreMessages(false)`, and `stop` and `clear`, which reset it.
  abbrev pub KeepsIgnoring : Event → Type 0
  KeepsIgnoring (called (ignores false)) = ⊥
  KeepsIgnoring (called stops) = ⊥
  KeepsIgnoring (called clears) = ⊥
  KeepsIgnoring _ = Unit

  call-ignoring :
      (c : Call) (r : OscReceiver W S)
      → KeepsIgnoring (called c)
      → r.ignore_messages ≡ true
      → (call lo c r).ignore_messages ≡ true
  unfolding call setup setup_multicast start stop clear ignore_messages add_osc_object
      remove_osc_object remove_all_osc_objects
  call-ignoring (ignores false) r q on = absurd q
  call-ignoring (ignores true) r q on = refl
  call-ignoring stops r q on = absurd q
  call-ignoring clears r q on = absurd q
  call-ignoring c r q on = ground (arith, on)

  message_cb-user :
      (a : Arrival) (r t : OscReceiver W S) (handled : Bool)
      → r.ignore_messages ≡ true
      → message_cb read handle process fuel a r ≡ some (t, handled)
      → t.scene.user ≡ r.scene.user
  unfolding message_cb process_message
  message_cb-user a r t handled on e = ground (arith, on, e)

  handle_messages-user :
      (timeout bytes : ℕ) (r t : OscReceiver W S)
      → r.ignore_messages ≡ true
      → handle_messages read handle process lo fuel timeout r ≡ some (t, bytes)
      → t.scene.user ≡ r.scene.user
  handle_messages-user timeout bytes r t on e =
      elim (handle_messages-cases read lo handle process fuel timeout bytes r t e) [
        | inl (line, is) ↦ ap (λ (u : OscReceiver W S). u.scene.user) is
        | inr (w, arrivals, all) ↦
            let (v, same) =
              take_in-ignored read handle process fuel arrivals (record r { world = w }) on in
            ap (λ (u : OscReceiver W S). u.scene.user)
              (some-injective t (record r { world = v }) (sym all ∙ same))
      ]

  -- While messages are ignored, neither the thread nor a poll changes the program's state, in
  -- whatever order they come with the program's calls, until one ends it.
  pub Runs-ignored :
      {r s : OscReceiver W S} {es : List Event}
      → Runs read lo handle process fuel r es s
      → r.ignore_messages ≡ true
      → All KeepsIgnoring es
      → (s.scene.user ≡ r.scene.user) × (s.ignore_messages ≡ true)
  Runs-ignored stays on keeps = (refl, on)
  Runs-ignored (calls {r} c rest) on keeps =
      let (same, still) = Runs-ignored rest (call-ignoring c r keeps.0 on) keeps.1 in
      (same ∙ call-user c r, still)
  Runs-ignored (polls {r} {s} {t} timeout bytes e rest) on keeps =
      let (same, still) =
        Runs-ignored rest
          ((handle_messages-Kept read lo handle process fuel timeout bytes r t e).ignoring ∙ on)
          keeps.1 in
      (same ∙ handle_messages-user timeout bytes r t on e, still)
  Runs-ignored (comes {r} {s} {t} a handled up e rest) on keeps =
      let (same, still) =
        Runs-ignored rest
          ((message_cb-Kept read lo handle process fuel a r t handled e).ignoring ∙ on) keeps.1 in
      (same ∙ message_cb-user a r t handled on e, still)
