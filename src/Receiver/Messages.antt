-- ===== src/Receiver/Messages.antt =====
-- What message handling does, against offering the message to a list of objects.
use lopack.Prelude.{
  ℕ, Bool, true, false, List, [], ◌∷◌, ◌++◌, some, ◌≡◌, refl, ◌∙◌, length, length-append, ◌≤◌,
  arith, Option-cases, inl, inr, ◌==◌,
}
use lopack.Liblo.{Ptr, null}
use lopack.Received.Reader.{Reader}
use lopack.Received.Read.{ReceivedMessage, MessageSource, receive}
use lopack.Objects.Graph.{OscObject}
use lopack.Objects.Attach.{HasNoNull}
use lopack.Objects.Dispatch.{World, Handler, process_osc}
use lopack.Objects.Order.{
  VisitsAll, no_more, more, offer, offer-append, offer-store, process_osc-offer,
}
use lopack.Receiver.State.{Server, Arrival, OscReceiver, is_set, server_of}
use lopack.Receiver.Incoming.{
  inside, outside, offer_objects, process_message, message_cb, take_in, handle_messages,
}

-- Offering a message removes no object where none is NULL.
pub offer_objects-left :
    {T : Type 0} (f : Handler T) (fuel : ℕ) (qs left : List Ptr) (w v : World T) (handled : Bool)
    → HasNoNull qs
    → offer_objects f fuel qs w ≡ some (left, v, handled)
    → left ≡ qs
unfolding offer_objects
offer_objects-left f fuel [] left w v handled h e = ground (arith, e)
offer_objects-left f fuel (q ∷ qs) left w v handled h e =
    let set : (q == null) ≡ false = ground (arith, h.0) in
    elim (Option-cases (process_osc f fuel q w)) [
      | inl out ↦ ground (arith, set, out, e)
      | inr ((u, true), one) ↦ ground (arith, set, one, e)
      | inr ((u, false), one) ↦ elim (Option-cases (offer_objects f fuel qs u)) [
        | inl out ↦ ground (arith, set, one, out, e)
        | inr ((l, x, b), rest) ↦
            ground (arith, set, one, rest, e, offer_objects-left f fuel qs l u x b h.1 rest)
      ]
    ]

-- The entries that are left, with the outcome of an offer.
abbrev with_left : {S : Type 0} → List Ptr → World S × Bool → List Ptr × World S × Bool
with_left left (w, handled) = (left, w, handled)

module _ {S : Type 0} (handle : Handler S) (store : Ptr → OscObject) where
  offer_step :
      (fuel : ℕ) (q : Ptr) (qs l l' : List Ptr) (w : World S)
      → (q == null) ≡ false
      → process_osc handle fuel q w ≡ some (offer handle l w)
      → offer_objects handle fuel qs (offer handle l w).0
        ≡ some (with_left qs (offer handle l' (offer handle l w).0))
      → offer_objects handle fuel (q ∷ qs) w ≡ some (with_left (q ∷ qs) (offer handle (l ++ l') w))
  unfolding offer_objects
  offer_step fuel q qs l l' w set one rest =
      ground (arith, set, one, rest, offer-append handle l l' w)

  offer_objects-offer :
      {qs l : List Ptr} (fuel : ℕ) (w : World S)
      → VisitsAll store qs l
      → w.store ≡ store
      → length l ≤ fuel
      → offer_objects handle fuel qs w ≡ some (with_left qs (offer handle l w))
  unfolding offer_objects offer
  offer_objects-offer fuel w no_more e h = refl
  offer_objects-offer fuel w (more {q} {qs} {l} {l'} set one rest) e h =
      offer_step fuel q qs l l' w set
        (process_osc-offer handle store fuel q w one e (omega (arith, length-append l l')))
        (offer_objects-offer fuel (offer handle l w).0 rest (offer-store handle l w ∙ e)
          (omega (arith, length-append l l')))

module _ {W S : Type 0} (read : Reader W)
    (handle : ReceivedMessage → MessageSource → Handler (W × S))
    (process : ReceivedMessage → MessageSource → W × S → (W × S) × Bool) where
  -- Where the objects below the receiver's objects can be listed (none is NULL and no cycle is
  -- attached), a message that is not ignored is offered to them in that order, depth first, until
  -- one handles it; the `process` callback gets it exactly if none does, and decides the result.
  pub process_message-offer :
      {l : List Ptr} (fuel : ℕ) (msg : ReceivedMessage) (source : MessageSource)
      (r : OscReceiver W S)
      → r.ignore_messages ≡ false
      → VisitsAll r.scene.store r.objects l
      → length l ≤ fuel
      → let (w, handled) = offer (handle msg source) l (inside r) in
        let (user, last) = process msg source w.user in
        process_message read handle process fuel msg source r ≡ (elim handled [
          | true ↦ some (outside r w, true)
          | false ↦ some (outside r (record w { user = user }), last)
        ])
  unfolding process_message
  process_message-offer fuel msg source r off v h =
      ground
        (arith, off, offer_objects-offer (handle msg source) r.scene.store fuel (inside r) v refl h)

  pub message_cb-ignored :
      (fuel : ℕ) (a : Arrival) (r : OscReceiver W S)
      → r.ignore_messages ≡ true
      → message_cb read handle process fuel a r
        ≡ some (record r { world = (receive read a.path a.message r.world).1 }, false)
  unfolding message_cb
  message_cb-ignored fuel a r on = ground (arith, on)

  -- While messages are ignored, all that arrives is taken in, for any objects: no object and no
  -- callback sees it, and only liblo's state may change.
  pub take_in-ignored :
      (fuel : ℕ) (arrivals : List Arrival) (r : OscReceiver W S)
      → r.ignore_messages ≡ true
      → (w : W) × (take_in read handle process fuel arrivals r ≡ some (record r { world = w }))
  unfolding take_in
  take_in-ignored fuel [] r on = (r.world, refl)
  take_in-ignored fuel (a ∷ rest) r on =
      let (w, same) =
        take_in-ignored fuel rest (record r { world = (receive read a.path a.message r.world).1 })
          on in
      (w, ground (arith, on, same, message_cb-ignored fuel a r on))

  -- Polling a receiver that is set up and not running takes in what liblo has received.
  pub handle_messages-take_in :
      (lo : Server W) (fuel timeout : ℕ) (r t : OscReceiver W S) (w : W) (bytes : ℕ)
      (arrivals : List Arrival)
      → is_set r.server_thread ≡ true
      → r.is_running ≡ false
      → lo.server_recv_noblock (server_of lo r) timeout r.world ≡ (w, bytes, arrivals)
      → take_in read handle process fuel arrivals (record r { world = w }) ≡ some t
      → handle_messages read handle process lo fuel timeout r ≡ some (t, bytes)
  unfolding handle_messages
  handle_messages-take_in lo fuel timeout r t w bytes arrivals set stopped got runs =
      ground (arith, set, stopped, got, runs)
