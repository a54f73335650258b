-- ===== src/Receiver/Twin.antt =====
-- The loop of OscReceiver::processMessage against that of OscObject::processOsc.
use lopack.Prelude.{ℕ, false, List, [], ◌∷◌, ◌≡◌, refl, sym, subst}
use lopack.Liblo.{Ptr}
use lopack.Objects.Attach.{adds, removes, removes_all}
use lopack.Objects.Dispatch.{World}
use lopack.Objects.Ranked.{edit-store}
use lopack.Objects.Reentrant.{dispatch, dispatch-IsLoop}
use lopack.Receiver.Reentrant.{
  Action, calls, attaches, detaches, detaches_all, LiveCallback, act, acts, call_back_live,
  offer_loop, process_message_live, offer_loop-IsLoop,
}
use lopack.Receiver.Live.{attaches-store, detaches-store, detaches_all-store}
use lopack.Objects.Clean.{NoNulls, called-NoNulls, IsClean, loops-agree}

module _ {S : Type 0} (self : Ptr) where
  act-NoNulls : (a : Action) (w : World S) → NoNulls w.store → NoNulls (act self a w).0.store
  unfolding act
  act-NoNulls (calls e) w h =
      subst NoNulls (sym (edit-store e.target e.call e.moves w))
        (called-NoNulls w.store e.target e.call h)
  act-NoNulls (attaches q m) w h =
      subst NoNulls (sym (attaches-store self q m w)) (called-NoNulls w.store self (adds q) h)
  act-NoNulls (detaches q) w h =
      subst NoNulls (sym (detaches-store self q w)) (called-NoNulls w.store self (removes q) h)
  act-NoNulls detaches_all w h =
      subst NoNulls (sym (detaches_all-store self w)) (called-NoNulls w.store self removes_all h)

  acts-NoNulls :
      (todo : List Action) (w : World S) → NoNulls w.store → NoNulls (acts self todo w).0.store
  unfolding acts
  acts-NoNulls [] w h = h
  acts-NoNulls (a ∷ todo) w h = acts-NoNulls todo (act self a w).0 (act-NoNulls a w h)

  call_back_live-IsClean :
      (callback : LiveCallback S) (p : Ptr) (w : World S)
      → NoNulls w.store
      → IsClean (call_back_live self callback p w)
  unfolding call_back_live
  call_back_live-IsClean callback p w h =
      acts-NoNulls (callback p w).1 (record w { user = (callback p w).0 }) h

  -- Where no NULL is attached anywhere, processMessage with messages not ignored does, for every
  -- callback and amount of fuel, what processOsc does of an object that has the receiver's vector and
  -- whose callback is `process`: with the same result, changes and undefined behaviour.
  pub process_message_live-dispatch :
      (callback : LiveCallback S) (fuel : ℕ) (w : World S)
      → NoNulls w.store
      → process_message_live self callback false fuel w
        ≡ dispatch (call_back_live self callback) fuel self 0 w
  unfolding process_message_live offer_loop dispatch
  process_message_live-dispatch callback fuel w h =
      let call = call_back_live self callback in
      loops-agree call (call_back_live-IsClean callback) self (offer_loop self callback)
        (λ f i v. dispatch call f self i v) (offer_loop-IsLoop self callback)
        (dispatch-IsLoop call self) (λ i v. refl) fuel 0 w h
