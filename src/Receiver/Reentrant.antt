-- ===== src/Receiver/Reentrant.antt =====
-- OscReceiver::processMessage with callbacks that attach objects to the receiver or to one another, and
-- remove them, while a message is processed. The receiver's root address and vector stand in the store
-- at `self`, which is no object's pointer, so that the vector is watched as those of the objects are.
use lopack.Prelude.{
  ℕ, zero, suc, Bool, true, false, List, [], ◌∷◌, ◌++◌, none, some, get_elem?, ◌==◌, if◌then◌else◌,
  refl,
}
use lopack.Prelude.Text.{codes}
use lopack.Liblo.{Ptr, null, update}
use lopack.Log.{warning}
use lopack.Objects.Graph.{erase_at}
use lopack.Objects.Attach.{adds, removes, removes_all}
use lopack.Objects.Dispatch.{World}
use lopack.Objects.Reentrant.{
  Edit, Change, erased, changes, edit, Dispatched, ended, ran_out, noting, resume, dispatch, IsLoop,
}
use lopack.Receiver.State.{OscReceiver, add_osc_object, remove_osc_object, remove_all_osc_objects}

-- What a callback does: a call on an object, or one that attaches objects to the receiver or removes
-- them; where one is attached it says whether the vector's memory is allocated anew. Its other calls on
-- the receiver leave the vector alone. What another thread calls while the
-- callback runs can be taken for actions of the callback.
pub data Action : Type 0 where
  calls : Edit → Action
  attaches : Ptr → (moves : Bool) → Action
  detaches : Ptr → Action
  detaches_all : Action

-- The callback of the object at a pointer, or `process` at the receiver's: what it does to the
-- program's state, its actions, and whether it handled the message.
abbrev pub LiveCallback : Type 0 → Type 0
LiveCallback S = Ptr → World S → S × List Action × Bool

module _ {S : Type 0} (self : Ptr) where
  -- The members that attaching and removing read and write.
  abbrev pub receiver_at : World S → OscReceiver Unit S
  receiver_at w = record {
    osc_root_address = (w.store self).osc_root_address;
    server_thread = null;
    is_multicast = false;
    is_running = false;
    ignore_messages = false;
    objects = (w.store self).objects;
    world = tt;
    scene = w;
  }

  abbrev pub left_at : OscReceiver Unit S → World S
  left_at r = record r.scene {
    store =
        update r.scene.store self
          (record { osc_root_address = r.osc_root_address; objects = r.objects });
  }

  unfoldable pub act : Action → World S → World S × List Change
  unfolding add_osc_object remove_osc_object remove_all_osc_objects edit changes
  act (calls e) w = (edit e w, changes e.target (w.store e.target) e.moves e.call)
  act (attaches q moves) w =
      (left_at (add_osc_object q (receiver_at w)), changes self (w.store self) moves (adds q))
  act (detaches q) w =
      (left_at (remove_osc_object q (receiver_at w)), changes self (w.store self) false (removes q))
  act detaches_all w = (
    left_at (remove_all_osc_objects (receiver_at w)),
    changes self (w.store self) false removes_all,
  )

  unfoldable pub acts : List Action → World S → World S × List Change
  unfolding act
  acts [] w = (w, [])
  acts (a ∷ todo) w = let (v, cs) = act a w in let (u, ds) = acts todo v in (u, cs ++ ds)

  -- `m_objects.erase(iter)` and the warning
  unfoldable pub erase_null_entry : ℕ → World S → World S
  erase_null_entry i w = record w {
    store =
        update w.store self (record (w.store self) { objects = erase_at i (w.store self).objects });
    console = w.console ++ warning (codes "OscReceiver: removed NULL object") ∷ [];
  }

  module _ (callback : LiveCallback S) where
    unfoldable pub call_back_live : Ptr → World S → Dispatched S
    unfolding acts
    call_back_live p w =
        let (user, todo, handled) = callback p w in
        let (v, cs) = acts todo (record w { user = user }) in ended v handled cs

    -- The loop over the receiver's objects, and `process` last.
    unfoldable pub offer_loop : ℕ → ℕ → World S → Dispatched S
    unfolding call_back_live dispatch erase_null_entry
    offer_loop zero i w = ran_out
    offer_loop (suc fuel) i w = elim (get_elem? (w.store self).objects i) [
      | none ↦ call_back_live self w
      | some q ↦ elim (q == null) [
        | true ↦ noting (erased self i ∷ []) (offer_loop fuel i (erase_null_entry i w))
        | false ↦ resume self i (dispatch call_back_live fuel q 0 w) (offer_loop fuel (suc i))
      ]
    ]

    unfoldable pub process_message_live : (ignore : Bool) → ℕ → World S → Dispatched S
    unfolding offer_loop
    process_message_live ignore fuel w = if ignore then ended w false [] else offer_loop fuel 0 w

    pub offer_loop-IsLoop : IsLoop call_back_live self offer_loop
    unfolding offer_loop
    offer_loop-IsLoop = record {
      last = λ fuel i w e. rw (e, offer_loop) refl;
      step = λ fuel i w q e set. rw (e, set, offer_loop) refl;
    }
