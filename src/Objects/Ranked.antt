-- ===== src/Objects/Ranked.antt =====
-- Callbacks that change objects while a message is processed, and keep to what is below them.
use lopack.Prelude.{
  ℕ, Bool, false, List, [], ◌∷◌, ◌++◌, ◌≡◌, refl, sym, subst, ◌∙◌, arith, Option-cases, Bool-cases,
  inl, inr, ◌==◌, ==_iff, ◌≤◌, ◌<◌, All, All-append,
}
use lopack.Liblo.{Ptr, null, update}
use lopack.Liblo.Updates.{at, update_self}
use lopack.Objects.Graph.{OscObject}
use lopack.Objects.Attach.{Call, adds, removes, removes_all, sets, prepends, call, Fits, call-All}
use lopack.Objects.Dispatch.{World}
use lopack.Objects.Cycles.{Descends}
use lopack.Objects.Reentrant.{
  Edit, Change, appended, cleared, erased, spoils, any_spoils, position, changes, edit, edits,
}

-- The objects after a call of a member function of the one at `t`.
abbrev pub called : (Ptr → OscObject) → Ptr → Call → Ptr → OscObject
called store t c = update store t (call c (store t))

pub called-other :
    (store : Ptr → OscObject) (t q : Ptr) (c : Call)
    → (q == t) ≡ false
    → called store t c q ≡ store q
called-other store t q c e = rw e refl

pub edit-store :
    {S : Type 0} (t : Ptr) (c : Call) (m : Bool) (w : World S)
    → (edit (record { target = t; call = c; moves = m }) w).store ≡ called w.store t c
unfolding edit call
edit-store t (adds q) m w = refl
edit-store t (removes q) m w = refl
edit-store t removes_all m w = refl
edit-store t (sets x) m w = refl
edit-store t (prepends x) m w = refl

-- The object whose vector changed.
abbrev changed_at : Change → Ptr
changed_at (appended p moved) = p
changed_at (cleared p) = p
changed_at (erased p k) = p

module _ (rank : Ptr → ℕ) where
  abbrev pub AtMost : ℕ → List Change → Type 0
  AtMost n = All (λ c. rank (changed_at c) ≤ n)

  changes-AtMost :
      (p : Ptr) (o : OscObject) (m : Bool) (c : Call) → AtMost (rank p) (changes p o m c)
  unfolding changes
  changes-AtMost p o m (adds q) = elim (Bool-cases (q == null)) [
    | inl e ↦ rw e tt
    | inr e ↦ rw e (omega arith, tt)
  ]
  changes-AtMost p o m (removes q) = elim (Bool-cases (q == null)) [
    | inl e ↦ rw e tt
    | inr e ↦ elim (Option-cases (position q o.objects)) [
      | inl gone ↦ rw (e, gone) tt
      | inr (k, found) ↦ rw (e, found) (omega arith, tt)
    ]
  ]
  changes-AtMost p o m removes_all = (omega arith, tt)
  changes-AtMost p o m (sets t) = tt
  changes-AtMost p o m (prepends t) = tt

  AtMost-mono : (n m : ℕ) (cs : List Change) → n ≤ m → AtMost n cs → AtMost m cs
  AtMost-mono n m [] le h = tt
  AtMost-mono n m (c ∷ cs) le h = (omega (arith, le, h.0), AtMost-mono n m cs le h.1)

  other' : (q p : Ptr) → rank p < rank q → (q == p) ≡ false
  other' q p h = grind arith

  other : (q p : Ptr) → rank q < rank p → (q == p) ≡ false
  other q p h = grind arith

  spoils-below :
      (p : Ptr) (i : ℕ) (c : Change) → rank (changed_at c) < rank p → spoils p i c ≡ false
  spoils-below p i (appended q moved) h = rw (other q p h) refl
  spoils-below p i (cleared q) h = other q p h
  spoils-below p i (erased q k) h = rw (other q p h) refl

  pub any_spoils-below :
      (p : Ptr) (i n : ℕ) (cs : List Change) → n < rank p → AtMost n cs → any_spoils p i cs ≡ false
  any_spoils-below p i n [] le h = refl
  any_spoils-below p i n (c ∷ cs) le h =
      rw (spoils-below p i c (omega (arith, h.0)), any_spoils-below p i n cs le h.1) refl

  -- The calls that the object `p` may make: on objects whose rank is not higher than its own, and it
  -- may attach what has a smaller rank than the object it attaches it to.
  abbrev pub Keeps : Ptr → List Edit → Type 0
  Keeps p = All (λ e. (rank e.target ≤ rank p) × Fits (λ q. rank q < rank e.target) e.call)

  -- What may be attached to an object of rank `n`.
  abbrev Under : ℕ → Ptr → Type 0
  Under n q = ((q == null) ≡ false) × (rank q < n)

  Fits-set : (t : Ptr) (c : Call) → Fits (λ q. rank q < rank t) c → Fits (Under (rank t)) c
  Fits-set t (adds q) fit = λ e. (e, fit e)
  Fits-set t (removes q) fit = tt
  Fits-set t removes_all fit = tt
  Fits-set t (sets x) fit = tt
  Fits-set t (prepends x) fit = tt

  called-Descends_at :
      (store : Ptr → OscObject) (t : Ptr) (c : Call)
      → Fits (λ q. rank q < rank t) c
      → Descends store rank
      → All (Under (rank t)) (called store t c t).objects
  called-Descends_at store t c fit d =
      subst (λ o. All (Under (rank t)) o.objects) (sym (update_self store t (call c (store t))))
        (call-All (Under (rank t)) c (store t) (Fits-set t c fit) (d t))

  called-Descends :
      (store : Ptr → OscObject) (t : Ptr) (c : Call)
      → Fits (λ q. rank q < rank t) c
      → Descends store rank
      → Descends (called store t c) rank
  called-Descends store t c fit d p = elim (Bool-cases (p == t)) [
    | inl e ↦
        subst (λ p. All (Under (rank p)) (called store t c p).objects) (sym ((==_iff p t).0 e))
          (called-Descends_at store t c fit d)
    | inr e ↦ subst (λ o. All (Under (rank p)) o.objects) (sym (called-other store t p c e)) (d p)
  ]

  module _ {S : Type 0} where
    -- What a call of processOsc of an object of rank `n` does at most: the objects of higher rank are
    -- as they were, and nothing is attached in a cycle.
    pub record Within (n : ℕ) (w v : World S) (cs : List Change) : Type 0 where
      pub above : (q : Ptr) → n < rank q → v.store q ≡ w.store q
      pub descends : Descends v.store rank
      pub at_most : AtMost n cs

    pub Within-trans :
        (n m : ℕ) (w v u : World S) (cs ds : List Change)
        → n ≤ m
        → Within n w v cs
        → Within m v u ds
        → Within m w u (cs ++ ds)
    Within-trans n m w v u cs ds le one two = record {
      above = λ q h. two.above q h ∙ one.above q (omega (arith, h, le));
      descends = two.descends;
      at_most =
          All-append (λ c. rank (changed_at c) ≤ m) cs ds (AtMost-mono n m cs le one.at_most)
            two.at_most;
    }

    pub Within-mono :
        (n m : ℕ) (w v : World S) (cs : List Change) → n ≤ m → Within n w v cs → Within m w v cs
    Within-mono n m w v cs le one = record {
      above = λ q h. one.above q (omega (arith, h, le));
      descends = one.descends;
      at_most = AtMost-mono n m cs le one.at_most;
    }

    pub called-Within :
        (n : ℕ) (t : Ptr) (c : Call) (m : Bool) (w v : World S)
        → v.store ≡ called w.store t c
        → rank t ≤ n
        → Fits (λ q. rank q < rank t) c
        → Descends w.store rank
        → Within n w v (changes t (w.store t) m c)
    called-Within n t c m w v e le fit d = record {
      above = λ q h. at e q ∙ called-other w.store t q c (other' q t (omega (arith, h, le)));
      descends = subst (λ s. Descends s rank) (sym e) (called-Descends w.store t c fit d);
      at_most =
          AtMost-mono (rank t) n (changes t (w.store t) m c) le (changes-AtMost t (w.store t) m c);
    }

    pub edit-Within :
        (n : ℕ) (e : Edit) (w : World S)
        → rank e.target ≤ n
        → Fits (λ q. rank q < rank e.target) e.call
        → Descends w.store rank
        → Within n w (edit e w) (changes e.target (w.store e.target) e.moves e.call)
    edit-Within n e w =
        called-Within n e.target e.call e.moves w (edit e w) (edit-store e.target e.call e.moves w)

    pub edits-Within :
        (p : Ptr) (es : List Edit) (w : World S)
        → Keeps p es
        → Descends w.store rank
        → Within (rank p) w (edits es w).0 (edits es w).1
    unfolding edits
    edits-Within p [] w h d = record { above = λ q _. refl; descends = d; at_most = tt }
    edits-Within p (e ∷ es) w h d =
        let one = edit-Within (rank p) e w h.0.0 h.0.1 d in
        Within-trans (rank p) (rank p) w (edit e w) (edits es (edit e w)).0
          (changes e.target (w.store e.target) e.moves e.call) (edits es (edit e w)).1 (omega arith)
          one (edits-Within p es (edit e w) h.1 one.descends)
