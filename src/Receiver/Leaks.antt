-- ===== src/Receiver/Leaks.antt =====
-- The references to liblo's messages: the constructor of ReceivedMessage takes one, and there is no
-- destructor.
use lopack.Prelude.{
  ℕ, suc, Bool, true, false, List, [], ◌∷◌, some, ◌≡◌, refl, sym, subst, ap, ap₂, ◌∙◌, length, ◌+◌,
  ◌≤◌, arith, ◌==◌, if◌then◌else◌, Bool-cases, inl, inr,
}
use lopack.Prelude.Text.{Text}
use lopack.Liblo.{Ptr}
use lopack.Received.Reader.{Reader}
use lopack.Received.Read.{ReceivedMessage, MessageSource, receive}
use lopack.Objects.Graph.{OscObject}
use lopack.Objects.Dispatch.{World, Handler, process_osc_message}
use lopack.Objects.Order.{VisitsAll, offer, offer-store}
use lopack.Receiver.State.{Arrival, OscReceiver}
use lopack.Receiver.Incoming.{inside, outside, process_message, message_cb, take_in}
use lopack.Receiver.Messages.{process_message-offer, message_cb-ignored}

-- What no handler changes in the user's state is not changed by an offer.
offer-user :
    {S : Type 0} (handle : Handler S) (f : S → ℕ)
    → ((p : Ptr) (t : Text) (u : S) → f (handle p t u).0 ≡ f u)
    → (l : List Ptr) (w : World S) → f (offer handle l w).0.user ≡ f w.user
unfolding offer process_osc_message
offer-user handle f keeps [] w = refl
offer-user handle f keeps (p ∷ ps) w =
    elim (Bool-cases (handle p (w.store p).osc_root_address w.user).1) [
      | inl done ↦ rw (done, offer) (keeps p (w.store p).osc_root_address w.user)
      | inr more ↦
          rw (more, offer)
            (offer-user handle f keeps ps (process_osc_message handle p w).0
              ∙ keeps p (w.store p).osc_root_address w.user)
    ]

-- How often a message came.
abbrev pub times : Ptr → List Arrival → ℕ
times q [] = 0
times q (a ∷ rest) = if a.message == q then suc (times q rest) else times q rest

counted : (b : Bool) (x y : ℕ) → (if b then suc x else x) + y ≡ x + (if b then suc y else y)
counted true x y = omega arith
counted false x y = refl

module _ {W S : Type 0} (read : Reader W)
    (handle : ReceivedMessage → MessageSource → Handler (W × S))
    (process : ReceivedMessage → MessageSource → W × S → (W × S) × Bool) (refs : Ptr → W → ℕ) where
  -- `refs` is the number of references that liblo counts; the callbacks leave it as it is.
  pub record Counts : Type 0 where
    pub incref :
        (q p : Ptr) (w : W)
        → refs q (read.message_incref p w) ≡ (if p == q then suc (refs q w) else refs q w)
    pub handles :
        (q : Ptr) (msg : ReceivedMessage) (source : MessageSource) (p : Ptr) (t : Text) (u : W × S)
        → refs q (handle msg source p t u).0.0 ≡ refs q u.0
    pub processes :
        (q : Ptr) (msg : ReceivedMessage) (source : MessageSource) (u : W × S)
        → refs q (process msg source u).0.0 ≡ refs q u.0

  -- The receiver after a message: the objects and their receiver's vector are the same.
  record Handled (q : Ptr) (a : Arrival) (r t : OscReceiver W S) : Type 0 where
    store : t.scene.store ≡ r.scene.store
    objects : t.objects ≡ r.objects
    count : refs q t.world ≡ (if a.message == q then suc (refs q r.world) else refs q r.world)

  -- A message that is not ignored: what the objects and `process` do keeps the number.
  process_message-refs :
      {l : List Ptr} (fuel : ℕ) (q : Ptr) (msg : ReceivedMessage) (source : MessageSource)
      (r : OscReceiver W S)
      → Counts
      → r.ignore_messages ≡ false
      → VisitsAll r.scene.store r.objects l
      → length l ≤ fuel
      → (t : OscReceiver W S) × (handled : Bool) × (process_message read handle process fuel msg
            source r
          ≡ some (t, handled))
        × (t.scene.store ≡ r.scene.store)
        × (t.objects ≡ r.objects)
        × (refs q t.world ≡ refs q r.world)
  process_message-refs {l} fuel q msg source r counts off v h =
      let e = process_message-offer read handle process fuel msg source r off v h in
      let (w, handled) = offer (handle msg source) l (inside r) in
      let kept =
        offer-user (handle msg source) (λ u. refs q u.0) (counts.handles q msg source) l
          (inside r) in
      let same = offer-store (handle msg source) l (inside r) in
      elim (Bool-cases handled) [
        | inl done ↦ (outside r w, true, e ∙ rw done refl, same, refl, kept)
        | inr more ↦
            let (user, last) = process msg source w.user in
            (
              outside r (record w { user = user }),
              last,
              e ∙ rw more refl,
              same,
              refl,
              counts.processes q msg source w.user ∙ kept,
            )
      ]

  message_cb-Handled :
      {l : List Ptr} (fuel : ℕ) (q : Ptr) (a : Arrival) (r : OscReceiver W S)
      → Counts
      → VisitsAll r.scene.store r.objects l
      → length l ≤ fuel
      → (t : OscReceiver W S) × (handled : Bool) × (message_cb read handle process fuel a r
          ≡ some (t, handled))
        × Handled q a r t
  unfolding message_cb receive
  message_cb-Handled fuel q a r counts v h = elim (Bool-cases r.ignore_messages) [
    | inl on ↦ (
      record r { world = (receive read a.path a.message r.world).1 },
      false,
      message_cb-ignored read handle process fuel a r on,
      record { store = refl; objects = refl; count = counts.incref q a.message r.world },
    )
    | inr off ↦
        let (msg, w) = receive read a.path a.message r.world in
        let (t, handled, e, store, objects, count) =
          process_message-refs fuel q msg (record { address = read.message_get_source a.message w })
            (record r { world = w }) counts off v h in
        (
          t,
          handled,
          e,
          record {
            store = store;
            objects = objects;
            count = count ∙ counts.incref q a.message r.world;
          },
        )
  ]

  -- Where the objects below the receiver's can be listed, and neither they nor `process` give back
  -- references, all messages that come are taken in, ignored or not, and each leaves one more
  -- reference to itself than there was: after any number of arrivals, the count of a message has
  -- grown by the number of its arrivals.
  pub take_in-leaks :
      {l : List Ptr} (fuel : ℕ) (q : Ptr) (arrivals : List Arrival) (r : OscReceiver W S)
      → Counts
      → VisitsAll r.scene.store r.objects l
      → length l ≤ fuel
      → (t : OscReceiver W S) × (take_in read handle process fuel arrivals r ≡ some t)
        × (refs q t.world ≡ refs q r.world + times q arrivals)
  unfolding take_in
  take_in-leaks fuel q [] r counts v h = (r, refl, omega arith)
  take_in-leaks {l} fuel q (a ∷ rest) r counts v h =
      let (s, handled, one, did) = message_cb-Handled fuel q a r counts v h in
      let (t, all, count) =
        take_in-leaks fuel q rest s counts
          (subst (λ (x : (Ptr → OscObject) × List Ptr). VisitsAll x.0 x.1 l)
            (ap₂ (λ x y. (x, y)) (sym did.store) (sym did.objects)) v)
          h in
      (
        t,
        rw (one, take_in) all,
        count
            ∙ ap (λ n. n + times q rest) did.count
            ∙ counted (a.message == q) (refs q r.world) (times q rest),
      )
