-- ===== src/Objects/Reentrant.antt =====
-- OscObject::processOsc with callbacks that attach and remove objects while a message is on its way.
-- A loop keeps an iterator into the vector of its object: a change of that vector can make the
-- iterator invalid, and to go on with it is undefined behaviour.
use lopack.Prelude.{
  ℕ, zero, suc, Bool, true, false, List, [], ◌∷◌, ◌++◌, Option, none, some, get_elem?, ltb, not,
  ◌==◌, ◌≡◌, refl, ◌&&◌, ◌||◌, if◌then◌else◌,
}
use lopack.Liblo.{Ptr, null, update}
use lopack.Objects.Graph.{
  OscObject, add_osc_object, remove_osc_object, remove_all_osc_objects, set_osc_root_address,
  prepend_osc_root_address,
}
use lopack.Objects.Attach.{Call, adds, removes, removes_all, sets, prepends}
use lopack.Objects.Dispatch.{World, erase_null}

-- A call of a member function of the object at `target`. `moves`: the capacity of the object's vector is
-- used up, so that a `push_back` of this call allocates its memory anew.
pub record Edit : Type 0 where
  pub target : Ptr
  pub call : Call
  pub moves : Bool

-- The callback of the object at a pointer: what it does to the program's state, which calls it makes
-- on objects, in order, and whether it handled the message.
abbrev pub Callback : Type 0 → Type 0
Callback S = Ptr → World S → S × List Edit × Bool

-- What became of a vector: an entry was put at its end, with the memory allocated anew or not, the
-- entry at a position was erased, or all were.
pub data Change : Type 0 where
  appended : Ptr → Bool → Change
  cleared : Ptr → Change
  erased : Ptr → ℕ → Change

-- Is an iterator at position `i` of the vector of `p` invalid after the change?
abbrev pub spoils : Ptr → ℕ → Change → Bool
spoils p i (appended q moved) = q == p && moved
spoils p i (cleared q) = q == p
spoils p i (erased q k) = q == p && not (ltb i k)

abbrev pub any_spoils : Ptr → ℕ → List Change → Bool
any_spoils p i [] = false
any_spoils p i (c ∷ cs) = spoils p i c || any_spoils p i cs

-- The first position of an entry.
unfoldable pub position : Ptr → List Ptr → Option ℕ
position p [] = none
position p (q ∷ qs) =
    if q == p then some 0 else elim (position p qs) [ none ↦ none | some k ↦ some (suc k) ]

-- How a call changes the vector of the object, which is at `p`, and which moves if it grows or not.
unfoldable pub changes : Ptr → OscObject → (moves : Bool) → Call → List Change
unfolding position
changes p o moves (adds q) = if q == null then [] else appended p moves ∷ []
changes p o moves (removes q) =
    if q == null then [] else elim (position q o.objects) [ none ↦ [] | some k ↦ erased p k ∷ [] ]
changes p o moves removes_all = cleared p ∷ []
changes p o moves (sets t) = []
changes p o moves (prepends t) = []

module _ {S : Type 0} where
  abbrev changed : Ptr → OscObject → World S → World S
  changed p o w = record w { store = update w.store p o }

  unfoldable pub edit : Edit → World S → World S
  unfolding add_osc_object remove_osc_object remove_all_osc_objects set_osc_root_address
      prepend_osc_root_address
  edit e w = elim e.call [
    | adds q ↦
        let (o, lines) = add_osc_object q (w.store e.target) in
        record (changed e.target o w) { console = w.console ++ lines }
    | removes q ↦
        let (o, lines) = remove_osc_object q (w.store e.target) in
        record (changed e.target o w) { console = w.console ++ lines }
    | removes_all ↦ changed e.target (remove_all_osc_objects (w.store e.target)) w
    | sets t ↦ changed e.target (set_osc_root_address t (w.store e.target)) w
    | prepends t ↦ changed e.target (prepend_osc_root_address t (w.store e.target)) w
  ]

  unfoldable pub edits : List Edit → World S → World S × List Change
  unfolding edit changes
  edits [] w = (w, [])
  edits (e ∷ es) w =
      let (v, cs) = edits es (edit e w) in
      (v, changes e.target (w.store e.target) e.moves e.call ++ cs)

-- How a call of processOsc ends: with its result and the changes that were made on the way, in
-- undefined behaviour, or not within the fuel.
pub data Dispatched (S : Type 0) : Type 0 where
  ended : World S → Bool → List Change → Dispatched S
  broken ran_out : Dispatched S

module _ {S : Type 0} where
  abbrev pub noting : List Change → Dispatched S → Dispatched S
  noting cs (ended w b ds) = ended w b (cs ++ ds)
  noting cs broken = broken
  noting cs ran_out = ran_out

  -- The loop of `p` goes on after the entry at position `i`, if that did not handle the message: it
  -- increments its iterator.
  abbrev pub resume : Ptr → ℕ → Dispatched S → (World S → Dispatched S) → Dispatched S
  resume p i (ended w true cs) next = ended w true cs
  resume p i (ended w false cs) next = elim (any_spoils p i cs) [
    | true ↦ broken
    | false ↦ noting cs (next w)
  ]
  resume p i broken next = broken
  resume p i ran_out next = ran_out

  unfoldable pub call_back : Callback S → Ptr → World S → Dispatched S
  unfolding edits
  call_back callback p w =
      let (user, es, handled) = callback p w in
      let (v, cs) = edits es (record w { user = user }) in ended v handled cs

  -- How the call of an object's callback ends is the parameter `call`.
  module _ (call : Ptr → World S → Dispatched S) where
    -- The loop of processOsc of the object `p`, its iterator at position `i`.
    unfoldable pub dispatch : ℕ → Ptr → ℕ → World S → Dispatched S
    unfolding erase_null
    dispatch zero p i w = ran_out
    dispatch (suc fuel) p i w = elim (get_elem? (w.store p).objects i) [
      | none ↦ call p w
      | some q ↦ elim (q == null) [
        | true ↦ noting (erased p i ∷ []) (dispatch fuel p i (erase_null p i w))
        | false ↦ resume p i (dispatch fuel q 0 w) (dispatch fuel p (suc i))
      ]
    ]

    -- A loop over the vector at `p` that offers the message to each entry, and then to the holder.
    pub record IsLoop (p : Ptr) (l : ℕ → ℕ → World S → Dispatched S) : Type 0 where
      pub last :
          (fuel i : ℕ) (w : World S)
          → get_elem? (w.store p).objects i ≡ none
          → l (suc fuel) i w ≡ call p w
      pub step :
          (fuel i : ℕ) (w : World S) (q : Ptr)
          → get_elem? (w.store p).objects i ≡ some q
          → (q == null) ≡ false
          → l (suc fuel) i w ≡ resume p i (dispatch fuel q 0 w) (l fuel (suc i))

    pub dispatch-IsLoop : (p : Ptr) → IsLoop p (λ fuel i w. dispatch fuel p i w)
    unfolding dispatch
    dispatch-IsLoop p = record {
      last = λ fuel i w e. rw (e, dispatch) refl;
      step = λ fuel i w q e set. rw (e, set, dispatch) refl;
    }
