-- ===== src/Objects/Clean.antt =====
-- Where no NULL is attached, none is when a call ends, and what a loop does is decided by its steps.
use lopack.Prelude.{
  ℕ, zero, suc, true, false, List, ◌≡◌, ◌≢◌, refl, sym, ap, subst, ◌∙◌, arith, get_elem?,
  get_elem?-All, Option-cases, Bool-cases, inl, inr, ◌==◌, ==_iff,
}
use lopack.Liblo.{Ptr, null}
use lopack.Liblo.Updates.{update_self}
use lopack.Objects.Graph.{OscObject}
use lopack.Objects.Attach.{Call, call, HasNoNull, call-HasNoNull}
use lopack.Objects.Dispatch.{World}
use lopack.Objects.Ranked.{called, called-other}
use lopack.Objects.Reentrant.{
  Change, any_spoils, Dispatched, ended, broken, ran_out, noting, resume, dispatch, IsLoop,
  dispatch-IsLoop,
}

abbrev pub NoNulls : (Ptr → OscObject) → Type 0
NoNulls store = (p : Ptr) → HasNoNull (store p).objects

pub called-NoNulls :
    (store : Ptr → OscObject) (t : Ptr) (c : Call) → NoNulls store → NoNulls (called store t c)
called-NoNulls store t c h p = elim (Bool-cases (p == t)) [
  | inl e ↦
      subst (λ p. HasNoNull (called store t c p).objects) (sym ((==_iff p t).0 e))
        (subst (λ o. HasNoNull o.objects) (sym (update_self store t (call c (store t))))
          (call-HasNoNull c (store t) (h t)))
  | inr e ↦ subst (λ o. HasNoNull o.objects) (sym (called-other store t p c e)) (h p)
]

module _ {S : Type 0} where
  -- No NULL is attached where a call ended.
  abbrev pub IsClean : Dispatched S → Type 0
  IsClean (ended w b cs) = NoNulls w.store
  IsClean broken = Unit
  IsClean ran_out = Unit

  noting-IsClean : (cs : List Change) (d : Dispatched S) → IsClean d → IsClean (noting cs d)
  noting-IsClean cs (ended w b ds) h = h
  noting-IsClean cs broken h = tt
  noting-IsClean cs ran_out h = tt

  resume-IsClean :
      (p : Ptr) (i : ℕ) (d : Dispatched S) (next : World S → Dispatched S)
      → IsClean d
      → ((w : World S) → NoNulls w.store → IsClean (next w))
      → IsClean (resume p i d next)
  resume-IsClean p i (ended w true cs) next h k = h
  resume-IsClean p i (ended w false cs) next h k = elim (Bool-cases (any_spoils p i cs)) [
    | inl e ↦ rw (resume, e) tt
    | inr e ↦ rw (resume, e) (noting-IsClean cs (next w) (k w h))
  ]
  resume-IsClean p i broken next h k = tt
  resume-IsClean p i ran_out next h k = tt

  resume-agrees :
      (p : Ptr) (i : ℕ) (d : Dispatched S) (next next' : World S → Dispatched S)
      → IsClean d
      → ((w : World S) → NoNulls w.store → next w ≡ next' w)
      → resume p i d next ≡ resume p i d next'
  resume-agrees p i (ended w true cs) next next' h k = refl
  resume-agrees p i (ended w false cs) next next' h k = elim (Bool-cases (any_spoils p i cs)) [
    | inl e ↦ rw (resume, e) refl
    | inr e ↦ rw (resume, e) (ap (noting cs) (k w h))
  ]
  resume-agrees p i broken next next' h k = refl
  resume-agrees p i ran_out next next' h k = refl

  module _ (call : Ptr → World S → Dispatched S)
      (clean : (p : Ptr) (w : World S) → NoNulls w.store → IsClean (call p w)) where
    dispatch-IsClean :
        (fuel : ℕ) (p : Ptr) (i : ℕ) (w : World S)
        → NoNulls w.store
        → IsClean (dispatch call fuel p i w)
    unfolding dispatch
    dispatch-IsClean zero p i w h = tt
    dispatch-IsClean (suc fuel) p i w h = elim (Option-cases (get_elem? (w.store p).objects i)) [
      | inl e ↦ subst IsClean (sym ((dispatch-IsLoop call p).last fuel i w e)) (clean p w h)
      | inr (q, e) ↦
          let set : (q == null) ≡ false =
            ground (arith, get_elem?-All (λ q. q ≢ null) (w.store p).objects i q (h p) e) in
          subst IsClean (sym ((dispatch-IsLoop call p).step fuel i w q e set)) (
            resume-IsClean p i (dispatch call fuel q 0 w) (dispatch call fuel p (suc i))
              (dispatch-IsClean fuel q 0 w h) (dispatch-IsClean fuel p (suc i)))
    ]

    -- Two loops over the same vector agree, if they do where they have no fuel.
    pub loops-agree :
        (p : Ptr) (l l' : ℕ → ℕ → World S → Dispatched S)
        → IsLoop call p l
        → IsLoop call p l'
        → ((i : ℕ) (w : World S) → l 0 i w ≡ l' 0 i w)
        → (fuel i : ℕ) (w : World S) → NoNulls w.store
        → l fuel i w ≡ l' fuel i w
    loops-agree p l l' one two start zero i w h = start i w
    loops-agree p l l' one two start (suc fuel) i w h =
        elim (Option-cases (get_elem? (w.store p).objects i)) [
          | inl e ↦ one.last fuel i w e ∙ sym (two.last fuel i w e)
          | inr (q, e) ↦
              let set : (q == null) ≡ false =
                ground (arith, get_elem?-All (λ q. q ≢ null) (w.store p).objects i q (h p) e) in
              one.step fuel i w q e set
              ∙ resume-agrees p i (dispatch call fuel q 0 w) (l fuel (suc i)) (l' fuel (suc i))
                  (dispatch-IsClean fuel q 0 w h) (loops-agree p l l' one two start fuel (suc i))
              ∙ sym (two.step fuel i w q e set)
        ]
