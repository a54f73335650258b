-- ===== src/Receiver/Threads.antt =====
-- The server thread beside the program: the program's calls, its polls, and the messages that
-- liblo's thread hands to messageCB while it is started, in any order, each as one step.
use lopack.Prelude.{
  ℕ, Bool, true, List, [], ◌∷◌, some, ◌≡◌, ◌≢◌, refl, sym, subst, ◌∙◌, arith, Option-cases, inl,
  inr, ◌⊎◌, ◌++◌, Bool-cases,
}
use lopack.Prelude.Text.{Text, codes}
use lopack.Liblo.{null}
use lopack.Received.Reader.{Reader}
use lopack.Received.Read.{ReceivedMessage, MessageSource}
use lopack.Objects.Attach.{HasNoNull}
use lopack.Objects.Dispatch.{World, Handler}
use lopack.Receiver.State.{Server, Arrival, OscReceiver, make_receiver, server_of, is_set, logged}
use lopack.Receiver.Incoming.{
  inside, offer_objects, process_message, message_cb, take_in, handle_messages,
}
use lopack.Log.{Channel, warning, error_line}
use lopack.Receiver.Messages.{offer_objects-left}
use lopack.Receiver.Life.{Call, call, IsConsistent, call-IsConsistent, make_receiver-IsConsistent}

-- A step: a call of the program, a poll, or a message that the thread hands over.
pub data Event : Type 0 where
  called : Call → Event
  polled : Event
  came : Arrival → Event

-- The members that message handling leaves alone, and the objects, if NULL is not among them.
pub record Kept {W S : Type 0} (r t : OscReceiver W S) : Type 0 where
  pub thread : t.server_thread ≡ r.server_thread
  pub running : t.is_running ≡ r.is_running
  pub multicast : t.is_multicast ≡ r.is_multicast
  pub ignoring : t.ignore_messages ≡ r.ignore_messages
  pub attached : HasNoNull r.objects → t.objects ≡ r.objects

Kept-next : {W S : Type 0} {r s t : OscReceiver W S} → Kept r s → Kept s t → Kept r t
Kept-next k l = record {
  thread = l.thread ∙ k.thread;
  running = l.running ∙ k.running;
  multicast = l.multicast ∙ k.multicast;
  ignoring = l.ignoring ∙ k.ignoring;
  attached = λ h. l.attached (subst HasNoNull (sym (k.attached h)) h) ∙ k.attached h;
}

module _ {W S : Type 0} (read : Reader W) (lo : Server W)
    (handle : ReceivedMessage → MessageSource → Handler (W × S))
    (process : ReceivedMessage → MessageSource → W × S → (W × S) × Bool) (fuel : ℕ) where
  -- The steps of a run, in order. The thread hands messages over only while it is started.
  pub data Runs : OscReceiver W S → List Event → OscReceiver W S → Type 0 where
    stays : {r : OscReceiver W S} → Runs r [] r
    calls :
        {r s : OscReceiver W S} {es : List Event} (c : Call)
        → Runs (call lo c r) es s
        → Runs r (called c ∷ es) s
    polls :
        {r s t : OscReceiver W S} {es : List Event} (timeout bytes : ℕ)
        → handle_messages read handle process lo fuel timeout r ≡ some (t, bytes)
        → Runs t es s
        → Runs r (polled ∷ es) s
    comes :
        {r s t : OscReceiver W S} {es : List Event} (a : Arrival) (handled : Bool)
        → r.is_running ≡ true
        → message_cb read handle process fuel a r ≡ some (t, handled)
        → Runs t es s
        → Runs r (came a ∷ es) s

  process_message-Kept :
      (msg : ReceivedMessage) (source : MessageSource) (r t : OscReceiver W S) (handled : Bool)
      → process_message read handle process fuel msg source r ≡ some (t, handled)
      → Kept r t
  unfolding process_message
  process_message-Kept msg source r t handled e = record {
    thread = ground (arith, e);
    running = ground (arith, e);
    multicast = ground (arith, e);
    ignoring = ground (arith, e);
    attached = λ h.
        elim (Option-cases (offer_objects (handle msg source) fuel r.objects (inside r))) [
          | inl out ↦ ground (arith, out, e)
          | inr ((left, w, b), one) ↦ ground (
            arith,
            one,
            e,
            offer_objects-left (handle msg source) fuel r.objects left (inside r) w b h one,
          )
        ];
  }

  pub message_cb-Kept :
      (a : Arrival) (r t : OscReceiver W S) (handled : Bool)
      → message_cb read handle process fuel a r ≡ some (t, handled)
      → Kept r t
  unfolding message_cb
  message_cb-Kept a r t handled e =
      let k = process_message-Kept _ _ _ t handled e in
      record {
        thread = k.thread;
        running = k.running;
        multicast = k.multicast;
        ignoring = k.ignoring;
        attached = k.attached;
      }

  take_in-Kept :
      (arrivals : List Arrival) (r t : OscReceiver W S)
      → take_in read handle process fuel arrivals r ≡ some t
      → Kept r t
  unfolding take_in
  take_in-Kept [] r t e = record {
    thread = ground (arith, e);
    running = ground (arith, e);
    multicast = ground (arith, e);
    ignoring = ground (arith, e);
    attached = λ h. ground (arith, e);
  }
  take_in-Kept (a ∷ rest) r t e = elim (Option-cases (message_cb read handle process fuel a r)) [
    | inl none_left ↦ record {
      thread = ground (arith, none_left, e);
      running = ground (arith, none_left, e);
      multicast = ground (arith, none_left, e);
      ignoring = ground (arith, none_left, e);
      attached = λ h. ground (arith, none_left, e);
    }
    | inr ((s, handled), one) ↦
        Kept-next (message_cb-Kept a r s handled one)
          (take_in-Kept rest s t (ground (arith, one, e)))
  ]

  -- A poll only logs a line, or it takes in what came.
  pub handle_messages-cases :
      (timeout bytes : ℕ) (r t : OscReceiver W S)
      → handle_messages read handle process lo fuel timeout r ≡ some (t, bytes)
      → ((line : Channel × Text) × (t ≡ logged line r))
        ⊎ ((w : W) × (arrivals : List Arrival) × (take_in read handle process fuel arrivals
                (record r { world = w })
              ≡ some t))
  unfolding handle_messages
  handle_messages-cases timeout bytes r t e = elim (Bool-cases (is_set r.server_thread)) [
    | inr unset ↦ inl (
      error_line (codes "OscReceiver: cannot handle messages, address not set"),
      ground (arith, unset, e),
    )
    | inl set ↦ elim (Bool-cases r.is_running) [
      | inl on ↦ inl (
        warning (
            codes "OscReceiver: you don't need to handle messages manually "
            ++ codes "when the thread is already running"),
        ground (arith, set, on, e),
      )
      | inr off ↦
          let (w, n, arrivals) = lo.server_recv_noblock (server_of lo r) timeout r.world in
          inr (w, arrivals, ground (arith, set, off, e))
    ]
  ]

  pub handle_messages-Kept :
      (timeout bytes : ℕ) (r t : OscReceiver W S)
      → handle_messages read handle process lo fuel timeout r ≡ some (t, bytes)
      → Kept r t
  handle_messages-Kept timeout bytes r t e = elim (handle_messages-cases timeout bytes r t e) [
    | inl (line, is) ↦ subst (Kept r) (sym is) (record {
      thread = refl;
      running = refl;
      multicast = refl;
      ignoring = refl;
      attached = λ h. refl;
    })
    | inr (w, arrivals, all) ↦
        let k = take_in-Kept arrivals (record r { world = w }) t all in
        record {
          thread = k.thread;
          running = k.running;
          multicast = k.multicast;
          ignoring = k.ignoring;
          attached = k.attached;
        }
  ]

  Kept-IsConsistent : {r t : OscReceiver W S} → Kept r t → IsConsistent W S r → IsConsistent W S t
  Kept-IsConsistent k v = record {
    running = λ on. subst (λ p. p ≢ null) (sym k.thread) (v.running (sym k.running ∙ on));
    multicast = λ on. subst (λ p. p ≢ null) (sym k.thread) (v.multicast (sym k.multicast ∙ on));
    attached = subst HasNoNull (sym (k.attached v.attached)) v.attached;
  }

  run-IsConsistent :
      {r s : OscReceiver W S} {es : List Event}
      → Runs r es s
      → IsConsistent W S r
      → IsConsistent W S s
  run-IsConsistent stays v = v
  run-IsConsistent (calls {r} c rest) v = run-IsConsistent rest (call-IsConsistent lo c r v)
  run-IsConsistent (polls {r} {s} {t} timeout bytes e rest) v =
      run-IsConsistent rest (Kept-IsConsistent (handle_messages-Kept timeout bytes r t e) v)
  run-IsConsistent (comes {r} {s} {t} a handled on e rest) v =
      run-IsConsistent rest (Kept-IsConsistent (message_cb-Kept a r t handled e) v)

  -- However the program's calls, its polls and the messages of the server thread are interleaved, a
  -- receiver that was made new counts as running or as multicast only while it has a server, and NULL
  -- is not among its objects.
  pub Runs-IsConsistent :
      (address : Text) (w : W) (scene : World S) {es : List Event} {s : OscReceiver W S}
      → Runs (make_receiver address w scene) es s
      → IsConsistent W S s
  Runs-IsConsistent address w scene run =
      run-IsConsistent run (make_receiver-IsConsistent lo address w scene)
