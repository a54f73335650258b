-- ===== src/Lptest/Handling.antt =====
-- What the test program's receiver does with messages of known contents.
use lopack.Prelude.{
  ℕ, Bool, true, false, ◌||◌, List, [], ◌∷◌, ◌++◌, Option, some, ◌≡◌, ◌≢◌, refl, sym, subst, ap,
  ◌∙◌, arith, ◌≤◌, get_elem?, Bool-cases, inl, inr,
}
use lopack.Prelude.Text.{Text, codes, text_eq, text_eq→eq}
use lopack.Outcome.{returned}
use lopack.Liblo.{Ptr, null, Arg}
use lopack.Objects.Graph.{OscObject, make_object}
use lopack.Objects.Dispatch.{World, process_osc_message}
use lopack.Objects.Order.{VisitsAll, visit, no_more, more, offer}
use lopack.Received.Reader.{Reader}
use lopack.Received.Read.{ReceivedMessage, MessageSource, check_address_and_types}
use lopack.Received.Contract.{Contents}
use lopack.Receiver.State.{Arrival, OscReceiver, is_set}
use lopack.Receiver.Incoming.{process_message, inside, outside}
use lopack.Receiver.Messages.{process_message-offer}
use lopack.Lptest.Programs.{Shown, object_process, process}
use lopack.Lptest.Parsing.{HasNulArg, object_process-returned}
use lopack.Lptest.Listener.{process-returned}
use lopack.Lptest.Callbacks.{TestState, object_callback, process_callback}

module _ {W : Type 0} (read : Reader W) where
  -- The arrivals are these messages, in order, and can be read in any state of liblo; a blob at the
  -- place that is parsed as one has a NUL.
  abbrev pub Carry : List (Text × List Arg) → List Arrival → Type 0
  Carry [] [] = Unit
  Carry [] (a ∷ as') = ⊥
  Carry (x ∷ xs) [] = ⊥
  Carry ((path, args) ∷ xs) (a ∷ as') =
      (a.path ≡ path)
      × ((w : W) → Contents read a.message w args)
      × ((b : Arg) → get_elem? args 13 ≡ some b → HasNulArg b)
      × Carry xs as'

-- Set up, its thread started or not as `on` says, with the program's one object, and nothing has gone
-- wrong.
pub record IsServing {W : Type 0} (on : Bool) (p : Ptr) (r : OscReceiver W TestState) : Type 0 where
  pub server : is_set r.server_thread ≡ true
  pub running : r.is_running ≡ on
  pub listens : r.ignore_messages ≡ false
  pub attached : r.objects ≡ p ∷ []
  pub object : r.scene.store p ≡ make_object (codes "/object")
  pub sound : r.scene.user.fault ≡ false

abbrev pub quits : List (Text × List Arg) → Bool
quits [] = false
quits ((path, args) ∷ xs) = text_eq path (codes "/quit") || quits xs

one_object :
    (store : Ptr → OscObject) (p : Ptr)
    → p ≢ null
    → store p ≡ make_object (codes "/object")
    → VisitsAll store (p ∷ []) (p ∷ [])
unfolding make_object
one_object store p set e =
    more (ground (arith, set)) (visit (subst (λ o. VisitsAll store o.objects []) (sym e) no_more))
      no_more

module _ {W : Type 0} (read : Reader W) where
  -- The object adds what it shows, and tells whether it handled the message.
  offer_object :
      (msg : ReceivedMessage) (source : MessageSource) (p : Ptr) (w : World (W × TestState))
      (out : List Shown) (handled : Bool)
      → w.store p ≡ make_object (codes "/object")
      → object_process read (codes "/object") msg source w.user.0 ≡ returned (out, handled)
      → offer (object_callback read msg source) (p ∷ []) w ≡ (
        record w { user = (w.user.0, record w.user.1 { shown = w.user.1.shown ++ out }) },
        handled,
      )
  unfolding offer process_osc_message object_callback make_object
  offer_object msg source p w out handled at shows =
      ground (arith, ap (λ (o : OscObject). o.osc_root_address) at, shows)

  -- The object's messages do not quit.
  object-quits :
      (msg : ReceivedMessage) (w : W)
      → check_address_and_types read (codes "/object") (codes "ifs") msg w ≡ true
      → text_eq msg.address_pattern (codes "/quit") ≡ false
  unfolding check_address_and_types text_eq
  object-quits msg w match =
      ap (λ t. text_eq t (codes "/quit"))
        (sym (text_eq→eq (codes "/object") msg.address_pattern (ground (arith, match))))

  -- TestReceiver::process adds what it shows.
  call_process :
      (msg : ReceivedMessage) (source : MessageSource) (w v : W) (c : TestState) (out : List Shown)
      (done : Bool)
      → process read c.done msg source w ≡ returned (out, done, v)
      → process_callback read msg source (w, c)
        ≡ ((v, record c { done = done; shown = c.shown ++ out }), true)
  unfolding process_callback
  call_process msg source w v c out done e = rw (e, process_callback) refl

  -- What becomes of the offer to the objects.
  abbrev settle :
      ReceivedMessage
      → MessageSource
      → OscReceiver W TestState
      → World (W × TestState) × Bool
      → Option (OscReceiver W TestState × Bool)
  settle msg source r o =
      let (user, last) = process_callback read msg source o.0.user in
      elim o.1 [
        | true ↦ some (outside r o.0, true)
        | false ↦ some (outside r (record o.0 { user = user }), last)
      ]

  -- What the receiver is after a message.
  pub record Handled (on : Bool) (p : Ptr) (msg : ReceivedMessage) (source : MessageSource)
      (fuel : ℕ) (r : OscReceiver W TestState) : Type 0 where
    pub after : OscReceiver W TestState
    pub runs :
        process_message read (object_callback read) (process_callback read) fuel msg source r
        ≡ some (after, true)
    pub polled : IsServing on p after
    pub done :
        after.scene.user.done ≡ (text_eq msg.address_pattern (codes "/quit") || r.scene.user.done)

  pub process_message-Handled :
      (on : Bool) (p : Ptr) (msg : ReceivedMessage) (source : MessageSource) (fuel : ℕ)
      (args : List Arg) (r : OscReceiver W TestState)
      → p ≢ null
      → IsServing on p r
      → 1 ≤ fuel
      → ((w : W) → Contents read msg.message w args)
      → ((b : Arg) → get_elem? args 13 ≡ some b → HasNulArg b)
      → Handled on p msg source fuel r
  process_message-Handled on p msg source fuel args r set v enough c nul =
      let (out, runs) =
        object_process-returned read msg r.world args (c r.world) (codes "/object") source in
      let check = check_address_and_types read (codes "/object") (codes "ifs") msg r.world in
      let all =
        subst (λ qs. VisitsAll r.scene.store qs (p ∷ [])) (sym v.attached)
          (one_object r.scene.store p set v.object) in
      let offered =
        process_message-offer read (object_callback read) (process_callback read) fuel msg source r
          v.listens all enough in
      let object = offer_object msg source p (inside r) out check v.object runs in
      let c1 : TestState = record r.scene.user { shown = r.scene.user.shown ++ out } in
      elim (Bool-cases check) [
        | inl match ↦ record {
          after = outside r (record (inside r) { user = (r.world, c1) });
          runs =
              offered
              ∙ ap (settle msg source r) object
              ∙ ap (λ b. settle msg source r (record (inside r) { user = (r.world, c1) }, b)) match;
          polled = ground (arith, v);
          done = ground (arith, object-quits msg r.world match);
        }
        | inr other ↦
            let (out2, u, processed) =
              process-returned read msg args (λ k a w h. c (read.arg_pp k a w)) r.scene.user.done
                source r.world (c r.world) nul in
            let c2 : TestState = record c1 {
              done = text_eq msg.address_pattern (codes "/quit") || r.scene.user.done;
              shown = c1.shown ++ out2;
            } in
            record {
              after = outside r (record (inside r) { user = (u, c2) });
              runs =
                  offered
                  ∙ ap (settle msg source r) object
                  ∙ ap (λ b. settle msg source r (record (inside r) { user = (r.world, c1) }, b))
                      other
                  ∙ ap
                      (λ (q : (W × TestState) × Bool).
                        some (outside r (record (inside r) { user = q.0 }), q.1))
                      (call_process msg source r.world u c1 out2 _ processed);
              polled = ground (arith, v);
              done = refl;
            }
      ]
