-- ===== src/Receiver/Live.antt =====
-- Whether processMessage ends, and without an invalid iterator, if callbacks attach and remove objects.
use lopack.Prelude.{
  ℕ, suc, Bool, true, false, List, [], ◌∷◌, append-nil, some, ◌≡◌, refl, arith, get_elem?, ◌==◌,
  ◌≤◌, ◌<◌, All, Bool-cases, inl, inr, if◌then◌else◌,
}
use lopack.Liblo.{Ptr, null}
use lopack.Objects.Graph
use lopack.Objects.Graph.{OscObject}
use lopack.Objects.Attach.{adds, removes, removes_all, call, Fits}
use lopack.Objects.Dispatch.{World}
use lopack.Objects.Cycles.{Descends}
use lopack.Objects.Reentrant.{Change, any_spoils, broken}
use lopack.Objects.Ranked.{called, Within, Within-trans, called-Within, edit-Within}
use lopack.Objects.Ends.{EndsWith, Ends, IsModest, loop-Ends, below-Ends}
use lopack.Objects.Disturb.{changes-spoil, loop-spoilt, Disturbs}
use lopack.Receiver.State
use lopack.Receiver.Reentrant.{
  Action, calls, attaches, detaches, detaches_all, LiveCallback, act, acts, call_back_live,
  offer_loop, process_message_live, offer_loop-IsLoop,
}

module _ {S : Type 0} (self : Ptr) where
  pub attaches-store :
      (q : Ptr) (m : Bool) (w : World S)
      → (act self (attaches q m) w).0.store ≡ called w.store self (adds q)
  unfolding act call State.add_osc_object Graph.add_osc_object
  attaches-store q m w = elim (Bool-cases (q == null)) [
    | inl e ↦ rw (e, call) refl
    | inr e ↦ rw (e, call) refl
  ]

  pub detaches-store :
      (q : Ptr) (w : World S) → (act self (detaches q) w).0.store ≡ called w.store self (removes q)
  unfolding act call State.remove_osc_object Graph.remove_osc_object
  detaches-store q w = elim (Bool-cases (q == null)) [
    | inl e ↦ rw (e, call) refl
    | inr e ↦ rw (e, call) refl
  ]

  pub detaches_all-store :
      (w : World S) → (act self detaches_all w).0.store ≡ called w.store self removes_all
  unfolding act call State.remove_all_osc_objects Graph.remove_all_osc_objects
  detaches_all-store w = refl

module _ (self : Ptr) (rank : Ptr → ℕ) where
  -- What the callback of `p` may do: calls on objects whose rank is not higher than its own, and
  -- the same for calls on the receiver; it attaches only what has a smaller rank.
  abbrev pub Allows : Ptr → Action → Type 0
  Allows p (calls e) = (rank e.target ≤ rank p) × Fits (λ q. rank q < rank e.target) e.call
  Allows p (attaches q moves) = (rank self ≤ rank p) × Fits (λ q. rank q < rank self) (adds q)
  Allows p (detaches q) = rank self ≤ rank p
  Allows p detaches_all = rank self ≤ rank p

  module _ {S : Type 0} where
    act-Within :
        (p : Ptr) (a : Action) (w : World S)
        → Allows p a
        → Descends w.store rank
        → Within rank (rank p) w (act self a w).0 (act self a w).1
    unfolding act
    act-Within p (calls e) w h d = edit-Within rank (rank p) e w h.0 h.1 d
    act-Within p (attaches q m) w h d =
        called-Within rank (rank p) self (adds q) m w _ (attaches-store self q m w) h.0 h.1 d
    act-Within p (detaches q) w h d =
        called-Within rank (rank p) self (removes q) false w _ (detaches-store self q w) h tt d
    act-Within p detaches_all w h d =
        called-Within rank (rank p) self removes_all false w _ (detaches_all-store self w) h tt d

    acts-Within :
        (p : Ptr) (todo : List Action) (w : World S)
        → All (Allows p) todo
        → Descends w.store rank
        → Within rank (rank p) w (acts self todo w).0 (acts self todo w).1
    unfolding acts
    acts-Within p [] w h d = record { above = λ q _. refl; descends = d; at_most = tt }
    acts-Within p (a ∷ todo) w h d =
        let one = act-Within p a w h.0 d in
        let (v, cs) = act self a w in
        Within-trans rank (rank p) (rank p) w v (acts self todo v).0 cs (acts self todo v).1
          (omega arith) one (acts-Within p todo v h.1 one.descends)

    call_back_live-IsModest :
        (callback : LiveCallback S)
        → ((p : Ptr) (w : World S) → All (Allows p) (callback p w).1)
        → IsModest (call_back_live self callback) rank
    unfolding call_back_live
    call_back_live-IsModest callback allows p w d =
        let u = record w { user = (callback p w).0 } in
        let todo = (callback p w).1 in
        let did = acts-Within p todo u (allows p w) d in
        (
          (acts self todo u).0,
          (callback p w).2,
          (acts self todo u).1,
          refl,
          record { above = did.above; descends = did.descends; at_most = did.at_most },
        )

    loop-ends :
        (callback : LiveCallback S) (w : World S)
        → ((p : Ptr) (v : World S) → All (Allows p) (callback p v).1)
        → Descends w.store rank
        → Ends
            (call_back_live self callback)
            rank
            (rank self)
            w
            (λ f. offer_loop self callback f 0 w)
    loop-ends callback w allows d =
        let call = call_back_live self callback in
        let modest = call_back_live-IsModest callback allows in
        loop-Ends call rank self (offer_loop self callback) (offer_loop-IsLoop self callback)
          (w.store self).objects 0 w modest refl d
          λ q v lower d'. below-Ends call rank (suc (rank q)) q v modest (omega arith) d'

    -- Where nothing is attached in a cycle, and each callback makes calls only on what is not above its
    -- own object and attaches only what has a smaller rank than what it attaches it to (so that
    -- `process` may attach to the receiver and remove from it, and the objects below it may not),
    -- processMessage ends, ignored or not, with the same result for every fuel that is enough, and no
    -- loop goes on with an invalid iterator; still nothing is attached in a cycle.
    pub process_message_live-ends :
        (callback : LiveCallback S) (ignore : Bool) (w : World S)
        → ((p : Ptr) (v : World S) → All (Allows p) (callback p v).1)
        → Descends w.store rank
        → (v : World S) × (b : Bool) × (cs : List Change) × EndsWith
            (λ fuel. process_message_live self callback ignore fuel w)
            v
            b
            cs
          × Descends v.store rank
    unfolding process_message_live
    process_message_live-ends callback true w allows d =
        (w, false, [], record { fuel = 0; ends = λ f le. refl }, d)
    process_message_live-ends callback false w allows d =
        let (v, b, cs, one, did) = loop-ends callback w allows d in
        (v, b, cs, record { fuel = one.fuel; ends = one.ends }, did.descends)

-- What a callback of `q` must not do to the receiver that holds `q`, without handling the message.
pub data Upsets (q : Ptr) : Action → Type 0 where
  attaches_one : {p : Ptr} → (p == null) ≡ false → Upsets q (attaches p true)
  leaves : Upsets q (detaches q)
  empties : Upsets q detaches_all

module _ {S : Type 0} (self : Ptr) where
  act-spoils :
      (q : Ptr) (i : ℕ) (a : Action) (w : World S)
      → get_elem? (w.store self).objects i ≡ some q
      → (q == null) ≡ false
      → Upsets q a
      → any_spoils self i (act self a w).1 ≡ true
  unfolding act
  act-spoils q i a w e set (attaches_one {p} new) =
      changes-spoil self q i (w.store self) true (adds p) e set (Disturbs.attaches new)
  act-spoils q i a w e set leaves =
      changes-spoil self q i (w.store self) false (removes q) e set Disturbs.detaches_itself
  act-spoils q i a w e set empties =
      changes-spoil self q i (w.store self) false removes_all e set Disturbs.detaches_all

  -- An object that is attached to the receiver, and to which nothing is attached, has a callback whose
  -- one action attaches an object to the receiver when the capacity of the vector is used up, or removes
  -- itself or everything from it. If the callback handled the message, what it does is all that
  -- processMessage still does. If not, the loop of processMessage goes on with an iterator that is not
  -- valid any more, which is undefined behaviour.
  pub offer_loop-disturbed :
      (callback : LiveCallback S) (fuel i : ℕ) (w : World S) (q : Ptr) (a : Action)
      → get_elem? (w.store self).objects i ≡ some q
      → (q == null) ≡ false
      → (w.store q).objects ≡ []
      → (callback q w).1 ≡ a ∷ []
      → Upsets q a
      → offer_loop self callback (suc (suc fuel)) i w
        ≡ (if (callback q w).2 then call_back_live self callback q w else broken)
  unfolding call_back_live acts
  offer_loop-disturbed callback fuel i w q a e set leaf made h =
      loop-spoilt (call_back_live self callback) self (offer_loop self callback)
        (offer_loop-IsLoop self callback) fuel i w _ q (callback q w).2 _ e set leaf refl
        (rw (made, append-nil) (act-spoils q i a (record w { user = (callback q w).0 }) e set h))
