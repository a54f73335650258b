-- ===== src/Receiver/Life.antt =====
-- The server thread's life: set-up, running, stopping and clearing.
use lopack.Prelude.{
  ℕ, Bool, true, false, List, [], ◌∷◌, ◌≡◌, ◌≢◌, arith, ◌==◌, All-append, subst, sym, Bool-cases,
  inl, inr,
}
use lopack.Prelude.Text.{Text, codes}
use lopack.Outcome.{Outcome, done, thrown, undefined}
use lopack.Liblo.{Ptr, null}
use lopack.Log.{warning}
use lopack.Objects.Attach.{HasNoNull, erase_first-All}
use lopack.Objects.Dispatch.{World}
use lopack.Receiver.State.{
  Server, OscReceiver, make_receiver, setup, setup_multicast, start, stop, clear, ignore_messages,
  add_osc_object, logged, remove_osc_object, remove_all_osc_objects,
}

-- The calls that change a receiver, other than message handling.
pub data Call : Type 0 where
  sets_up : ℕ → Call
  sets_up_multicast : Text → ℕ → Call
  starts stops clears removes_all : Call
  ignores : Bool → Call
  adds removes : Ptr → Call

-- What a set-up leaves behind, also when it throws.
abbrev pub left_by : {S : Type 0} → S → Outcome (S × Bool) → S
left_by s (done (t, b)) = t
left_by s (thrown e (t, b)) = t
left_by s undefined = s

-- A running thread and a multicast group belong to a server, and no entry of the objects is NULL.
pub record IsConsistent (W S : Type 0) (r : OscReceiver W S) : Type 0 where
  pub running : r.is_running ≡ true → r.server_thread ≢ null
  pub multicast : r.is_multicast ≡ true → r.server_thread ≢ null
  pub attached : HasNoNull r.objects

module _ {W S : Type 0} (lo : Server W) where
  unfoldable pub call : Call → OscReceiver W S → OscReceiver W S
  call (sets_up port) r = left_by r (setup lo port r)
  call (sets_up_multicast group port) r = left_by r (setup_multicast lo group port r)
  call starts r = start lo r
  call stops r = stop lo r
  call clears r = clear lo r
  call removes_all r = remove_all_osc_objects r
  call (ignores yesno) r = ignore_messages yesno r
  call (adds p) r = add_osc_object p r
  call (removes p) r = remove_osc_object p r

  unfoldable pub calls : List Call → OscReceiver W S → OscReceiver W S
  unfolding call
  calls [] r = r
  calls (c ∷ cs) r = calls cs (call c r)

  call-HasNoNull :
      (c : Call) (r : OscReceiver W S) → HasNoNull r.objects → HasNoNull (call c r).objects
  unfolding call setup setup_multicast start stop clear ignore_messages add_osc_object
      remove_osc_object remove_all_osc_objects
  call-HasNoNull (adds p) r h = elim (Bool-cases (p == null)) [
    | inl e ↦ rw (e, call) h
    | inr e ↦
        rw (e, call)
          (All-append (λ q. q ≢ null) r.objects (p ∷ []) h (λ z. ground (arith, e, z), tt))
  ]
  call-HasNoNull (removes p) r h = elim (Bool-cases (p == null)) [
    | inl e ↦ rw (e, call) h
    | inr e ↦ rw (e, call) (erase_first-All (λ q. q ≢ null) p r.objects h)
  ]
  call-HasNoNull removes_all r h = tt
  call-HasNoNull c r h =
      let same : (call c r).objects ≡ r.objects = ground arith in subst HasNoNull (sym same) h

  pub call-IsConsistent :
      (c : Call) (r : OscReceiver W S) → IsConsistent W S r → IsConsistent W S (call c r)
  unfolding call setup setup_multicast start stop clear ignore_messages add_osc_object
      remove_osc_object remove_all_osc_objects
  call-IsConsistent c r v = record {
    running = ground (arith, v.running, v.multicast);
    multicast = ground (arith, v.running, v.multicast);
    attached = call-HasNoNull c r v.attached;
  }

  calls-keep :
      (cs : List Call) (r : OscReceiver W S) → IsConsistent W S r → IsConsistent W S (calls cs r)
  unfolding calls
  calls-keep [] r v = v
  calls-keep (c ∷ cs) r v = calls-keep cs (call c r) (call-IsConsistent c r v)

  pub make_receiver-IsConsistent :
      (t : Text) (w : W) (scene : World S) → IsConsistent W S (make_receiver t w scene)
  unfolding make_receiver
  make_receiver-IsConsistent t w scene = ground arith

  -- After any calls on a new receiver, set-ups that fail or throw included, it counts as running or
  -- as multicast only while it has a server, and NULL is not among its objects.
  calls-IsConsistent :
      (t : Text) (w : W) (scene : World S) (cs : List Call)
      → IsConsistent W S (calls cs (make_receiver t w scene))
  calls-IsConsistent t w scene cs = calls-keep cs _ (make_receiver-IsConsistent t w scene)

  setup-server_thread :
      (port : ℕ) (r s : OscReceiver W S) → setup lo port r ≡ done (s, true) → s.server_thread ≢ null
  unfolding setup
  setup-server_thread port r s h = ground arith

  setup-refused :
      (port : ℕ) (s : OscReceiver W S)
      → s.server_thread ≢ null
      → (line : Text) × (setup lo port s ≡ done (logged (warning line) s, false))
  unfolding setup
  setup-refused port s h =
      (codes "OscReceiver: cannot set port while thread is running", ground arith)

  setup_multicast-refused :
      (group : Text) (port : ℕ) (s : OscReceiver W S)
      → s.server_thread ≢ null
      → (line : Text) × (setup_multicast lo group port s ≡ done (logged (warning line) s, false))
  unfolding setup_multicast
  setup_multicast-refused group port s h =
      (codes "OscReceiver: cannot set multicast group & port while thread is running", ground arith)

  -- A receiver that was set up cannot be set up again: both set-ups return false and add one line
  -- to the log, and nothing else changes.
  setup_once :
      (port port' : ℕ) (group : Text) (r s : OscReceiver W S)
      → setup lo port r ≡ done (s, true)
      → ((line : Text) × (setup lo port' s ≡ done (logged (warning line) s, false)))
        × ((line : Text) × (setup_multicast lo group port' s
              ≡ done (logged (warning line) s, false)))
  setup_once port port' group r s h =
      let set = setup-server_thread port r s h in
      (setup-refused port' s set, setup_multicast-refused group port' s set)

  -- After `clear` a consistent receiver has no server, is neither running nor multicast, and a
  -- second `clear` changes nothing more; nor does `stop`.
  clear_twice :
      (r : OscReceiver W S)
      → IsConsistent W S r
      → ((clear lo r).server_thread ≡ null)
        × ((clear lo r).is_running ≡ false)
        × ((clear lo r).is_multicast ≡ false)
        × (clear lo (clear lo r) ≡ clear lo r)
        × (stop lo (clear lo r) ≡ clear lo r)
  unfolding clear stop
  clear_twice r v = ground arith
