-- ===== src/Objects/Ends.antt =====
-- Where callbacks keep to what is below them, processOsc ends in spite of what they attach and remove,
-- and no loop meets an invalid iterator.
use lopack.Prelude.{
  ℕ, zero, suc, Bool, true, false, List, [], ◌∷◌, ◌++◌, ◌≡◌, refl, ap, ◌∙◌, arith, get_elem?,
  get_elem?-All, some, ◌==◌, ◌≤◌, ◌<◌, ◌+◌,
}
use lopack.Liblo.{Ptr, null}
use lopack.Objects.Dispatch.{World}
use lopack.Objects.Order.{drop, get_elem?-drop_nil, get_elem?-drop_cons}
use lopack.Objects.Cycles.{Descends}
use lopack.Objects.Reentrant.{
  Callback, Change, edits, Dispatched, ended, resume, call_back, dispatch, IsLoop, dispatch-IsLoop,
}
use lopack.Objects.Ranked.{Keeps, Within, Within-trans, edits-Within, Within-mono, any_spoils-below}

module _ {S : Type 0} where
  -- With enough fuel it ends, in one way whatever the fuel.
  pub record EndsWith (d : ℕ → Dispatched S) (v : World S) (b : Bool) (cs : List Change)
      : Type 0 where
    pub fuel : ℕ
    pub ends : (f : ℕ) → fuel ≤ f → d f ≡ ended v b cs

  -- One more step.
  later :
      (d : ℕ → Dispatched S) (k : ℕ) (r : Dispatched S)
      → ((f : ℕ) → k ≤ f → d (suc f) ≡ r)
      → (f : ℕ) → suc k ≤ f
      → d f ≡ r
  later d k r h zero le = elim le [ ]
  later d k r h (suc f) le = h f (omega (arith, le))

module _ {S : Type 0} (call : Ptr → World S → Dispatched S) (rank : Ptr → ℕ) where
  -- How the call that `d` is of ends, from the world `w`, for an object of rank `n`.
  abbrev pub Ends : ℕ → World S → (ℕ → Dispatched S) → Type 0
  Ends n w d =
      (v : World S) × (b : Bool) × (cs : List Change) × EndsWith d v b cs × Within rank n w v cs

  -- The callbacks end, and keep to what is below them.
  abbrev pub IsModest : Type 0
  IsModest =
      (p : Ptr) (w : World S)
      → Descends w.store rank
      → (v : World S) × (b : Bool) × (cs : List Change) × (call p w ≡ ended v b cs)
        × Within rank (rank p) w v cs

  module _ (p : Ptr) (l : ℕ → ℕ → World S → Dispatched S) (is_loop : IsLoop call p l) where
    -- After the call of the attached object `q`, whose rank is smaller, the loop goes on.
    after :
        (q : Ptr) (i : ℕ) (w v : World S) (b : Bool) (cs : List Change)
        → get_elem? (w.store p).objects i ≡ some q
        → (q == null) ≡ false
        → rank q < rank p
        → EndsWith (λ f. dispatch call f q 0 w) v b cs
        → Within rank (rank q) w v cs
        → Ends (rank p) v (λ f. l f (suc i) v)
        → Ends (rank p) w (λ f. l f i w)
    after q i w v true cs e set lower one did rest = (
      v,
      true,
      cs,
      record {
        fuel = suc one.fuel;
        ends =
            later (λ f. l f i w) one.fuel _
              λ f le. is_loop.step f i w q e set ∙ rw (one.ends f le) refl;
      },
      Within-mono rank (rank q) (rank p) w v cs (omega (arith, lower)) did,
    )
    after q i w v false cs e set lower one did (u, b, ds, two, did') = (
      u,
      b,
      cs ++ ds,
      record {
        fuel = suc (one.fuel + two.fuel);
        ends =
            later (λ f. l f i w) (one.fuel + two.fuel) _
              λ f le.
                is_loop.step f i w q e set
                ∙ rw
                    (
                      one.ends f (omega (arith, le)),
                      resume,
                      any_spoils-below rank p i (rank q) cs lower did.at_most,
                      two.ends f (omega (arith, le)),
                    )
                    refl;
      },
      Within-trans rank (rank q) (rank p) w v u cs ds (omega (arith, lower)) did did',
    )

    pub loop-Ends :
        (qs : List Ptr) (i : ℕ) (w : World S)
        → IsModest
        → drop i (w.store p).objects ≡ qs
        → Descends w.store rank
        → ((q : Ptr) (w : World S)
            → rank q < rank p
            → Descends w.store rank
            → Ends (rank q) w (λ f. dispatch call f q 0 w))
        → Ends (rank p) w (λ f. l f i w)
    loop-Ends [] i w modest e d below =
        let (v, b, cs, called, did) = modest p w d in
        let one : EndsWith (λ f. l f i w) v b cs = record {
          fuel = 1;
          ends =
              later (λ f. l f i w) 0 _
                λ f le. is_loop.last f i w (get_elem?-drop_nil i (w.store p).objects e) ∙ called;
        } in
        (v, b, cs, one, did)
    loop-Ends (q ∷ qs) i w modest e d below =
        let (got, left) = get_elem?-drop_cons i (w.store p).objects q qs e in
        let (set, lower) =
          get_elem?-All (λ q. ((q == null) ≡ false) × (rank q < rank p)) (w.store p).objects i q
            (d p) got in
        let (v, b, cs, one, did) = below q w lower d in
        after q i w v b cs got set lower one did (
          loop-Ends qs (suc i) v modest
            (ap (λ o. drop (suc i) o.objects) (did.above p lower) ∙ left) did.descends below)

  pub below-Ends :
      (n : ℕ) (p : Ptr) (w : World S)
      → IsModest
      → rank p < n
      → Descends w.store rank
      → Ends (rank p) w (λ f. dispatch call f p 0 w)
  below-Ends zero p w modest h d = elim h [ ]
  below-Ends (suc n) p w modest h d =
      loop-Ends p (λ f i w. dispatch call f p i w) (dispatch-IsLoop call p) (w.store p).objects 0 w
        modest refl d λ q v lower d'. below-Ends n q v modest (omega (arith, h, lower)) d'

call_back-IsModest :
    {S : Type 0} (callback : Callback S) (rank : Ptr → ℕ)
    → ((p : Ptr) (w : World S) → Keeps rank p (callback p w).1)
    → IsModest (call_back callback) rank
unfolding call_back
call_back-IsModest callback rank keeps p w d =
    let u = record w { user = (callback p w).0 } in
    let es = (callback p w).1 in
    let did = edits-Within rank p es u (keeps p w) d in
    (
      (edits es u).0,
      (callback p w).2,
      (edits es u).1,
      refl,
      record { above = did.above; descends = did.descends; at_most = did.at_most },
    )

-- Where nothing is attached in a cycle, and each callback only makes calls on objects whose rank is
-- not higher than that of the object it is of, and only attaches what has a smaller rank than what it
-- is attached to, processOsc of `p` ends, with the same result for every fuel that is enough, and no
-- loop goes on with an invalid iterator. The objects of higher rank are as they were, and still
-- nothing is attached in a cycle.
pub dispatch-ends :
    {S : Type 0} (callback : Callback S) (rank : Ptr → ℕ) (p : Ptr) (w : World S)
    → ((q : Ptr) (v : World S) → Keeps rank q (callback q v).1)
    → Descends w.store rank
    → (v : World S) × (b : Bool) × (cs : List Change) × EndsWith
        (λ fuel. dispatch (call_back callback) fuel p 0 w)
        v
        b
        cs
      × ((q : Ptr) → rank p < rank q → v.store q ≡ w.store q)
      × Descends v.store rank
dispatch-ends callback rank p w keeps d =
    let (v, b, cs, one, did) =
      below-Ends (call_back callback) rank (suc (rank p)) p w
        (call_back-IsModest callback rank keeps) (omega arith) d in
    (v, b, cs, one, did.above, did.descends)
