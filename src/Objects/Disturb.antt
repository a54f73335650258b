-- ===== src/Objects/Disturb.antt =====
-- Callbacks that change the vector whose loop called them.
use lopack.Prelude.{
  ℕ, zero, suc, Bool, true, false, List, [], ◌∷◌, append-nil, some, ◌≡◌, refl, ap, ◌∙◌, arith,
  get_elem?, ◌==◌, ==_iff, ◌≤◌, Bool-cases, inl, inr, if◌then◌else◌,
}
use mathlib.Core.Option.{some-injective}
use lopack.Liblo.{Ptr, null}
use lopack.Objects.Graph.{OscObject}
use lopack.Objects.Attach.{Call, adds, removes, removes_all}
use lopack.Objects.Dispatch.{World}
use lopack.Objects.Reentrant.{
  Callback, Change, any_spoils, position, changes, edits, Dispatched, ended, broken, resume,
  call_back, dispatch, IsLoop, dispatch-IsLoop,
}

position-le :
    (xs : List Ptr) (i : ℕ) (q : Ptr)
    → get_elem? xs i ≡ some q
    → (k : ℕ) × (position q xs ≡ some k) × (k ≤ i)
unfolding position
position-le [] i q e = cc
position-le (x ∷ xs) zero q e = (0, rw ((==_iff x q).1 (some-injective _ _ e)) refl, omega arith)
position-le (x ∷ xs) (suc i) q e = elim (Bool-cases (x == q)) [
  | inl same ↦ (0, rw same refl, omega arith)
  | inr other ↦
      let (k, found, le) = position-le xs i q e in
      (suc k, rw (other, found) refl, omega (arith, le))
]

-- The calls on the holder of `q` that a callback of `q` must not make without handling the message.
pub data Disturbs (q : Ptr) : (moves : Bool) → Call → Type 0 where
  attaches : {p : Ptr} → (p == null) ≡ false → Disturbs q true (adds p)
  detaches_itself : {moves : Bool} → Disturbs q moves (removes q)
  detaches_all : {moves : Bool} → Disturbs q moves removes_all

pub changes-spoil :
    (p q : Ptr) (i : ℕ) (o : OscObject) (m : Bool) (c : Call)
    → get_elem? o.objects i ≡ some q
    → (q == null) ≡ false
    → Disturbs q m c
    → any_spoils p i (changes p o m c) ≡ true
unfolding changes
changes-spoil p q i o true c e set (attaches new) = rw (new, (==_iff p p).1 refl) refl
changes-spoil p q i o m c e set detaches_itself =
    let (k, found, le) = position-le o.objects i q e in
    rw (set, found, (==_iff p p).1 refl) (ground (arith, le))
changes-spoil p q i o m c e set detaches_all = rw ((==_iff p p).1 refl) refl

resume_spoilt :
    {S : Type 0} (p : Ptr) (i : ℕ) (v : World S) (b : Bool) (cs : List Change)
    (next : World S → Dispatched S)
    → any_spoils p i cs ≡ true
    → resume p i (ended v b cs) next ≡ (if b then ended v b cs else broken)
resume_spoilt p i v true cs next h = refl
resume_spoilt p i v false cs next h = rw (resume, h) refl

-- A loop that offers the message to an object to which nothing is attached, and whose callback makes
-- the vector's iterator invalid.
pub loop-spoilt :
    {S : Type 0} (call : Ptr → World S → Dispatched S) (p : Ptr)
    (l : ℕ → ℕ → World S → Dispatched S)
    → IsLoop call p l
    → (fuel i : ℕ) (w v : World S) (q : Ptr) (b : Bool) (cs : List Change)
    → get_elem? (w.store p).objects i ≡ some q
    → (q == null) ≡ false
    → (w.store q).objects ≡ []
    → call q w ≡ ended v b cs
    → any_spoils p i cs ≡ true
    → l (suc (suc fuel)) i w ≡ (if b then ended v b cs else broken)
loop-spoilt call p l is_loop fuel i w v q b cs e set leaf called spoilt =
    is_loop.step (suc fuel) i w q e set
    ∙ ap (λ d. resume p i d (l (suc fuel) (suc i)))
        ((dispatch-IsLoop call q).last fuel 0 w (rw leaf refl) ∙ called)
    ∙ resume_spoilt p i v b cs (l (suc fuel) (suc i)) spoilt

-- An object that is attached to `p`, and to which nothing is attached, has a callback whose one call
-- on an object attaches another to `p` when the capacity of the vector is used up, or removes itself or
-- everything from `p`. If the callback handled the message, what it does is all that processOsc of `p`
-- still does. If not, the loop of `p` goes on with an iterator that is not valid any more, which is
-- undefined behaviour.
pub dispatch-disturbed :
    {S : Type 0} (callback : Callback S) (fuel : ℕ) (p q : Ptr) (i : ℕ) (w : World S) (m : Bool)
    (c : Call)
    → get_elem? (w.store p).objects i ≡ some q
    → (q == null) ≡ false
    → (w.store q).objects ≡ []
    → (callback q w).1 ≡ record { target = p; call = c; moves = m } ∷ []
    → Disturbs q m c
    → dispatch (call_back callback) (suc (suc fuel)) p i w
      ≡ (if (callback q w).2 then call_back callback q w else broken)
unfolding dispatch call_back edits
dispatch-disturbed callback fuel p q i w m c e set leaf made h =
    loop-spoilt (call_back callback) p (λ f i w. dispatch (call_back callback) f p i w)
      (dispatch-IsLoop (call_back callback) p) fuel i w _ q (callback q w).2 _ e set leaf refl
      (rw (made, append-nil) (changes-spoil p q i (w.store p) m c e set h))
