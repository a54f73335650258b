-- ===== src/Objects/Cycles.antt =====
-- Whether processOsc ends.
use lopack.Prelude.{
  ℕ, zero, suc, false, List, [], ◌∷◌, ◌++◌, none, some, ◌≡◌, ◌≢◌, refl, length, ◌≤◌, ◌<◌, arith,
  ◌==◌, All,
}
use lopack.Liblo.{Ptr, null}
use lopack.Objects.Graph.{OscObject}
use lopack.Objects.Dispatch.{Handler, World, scan, process_osc}
use lopack.Objects.Order.{Visits, VisitsAll, visit, no_more, more, offer, process_osc-offer}

module _ (store : Ptr → OscObject) (rank : Ptr → ℕ) where
  -- What is attached to an object is no NULL and has a smaller rank, so nothing is attached in a
  -- cycle.
  abbrev pub Descends : Type 0
  Descends = (p : Ptr) → All (λ q. ((q == null) ≡ false) × (rank q < rank p)) (store p).objects

  each-VisitsAll :
      (n : ℕ) (qs : List Ptr)
      → All (λ q. ((q == null) ≡ false) × (rank q < n)) qs
      → ((q : Ptr) → rank q < n → (l : List Ptr) × Visits store q l)
      → (l : List Ptr) × VisitsAll store qs l
  each-VisitsAll n [] h f = ([], no_more)
  each-VisitsAll n (q ∷ qs) h f =
      let (l, one) = f q h.0.1 in
      let (l', rest) = each-VisitsAll n qs h.1 f in (l ++ l', more h.0.0 one rest)

  below-Visits : (n : ℕ) (p : Ptr) → Descends → rank p < n → (l : List Ptr) × Visits store p l
  below-Visits zero p d h = elim h [ ]
  below-Visits (suc n) p d h =
      let (l, all) =
        each-VisitsAll (rank p) (store p).objects (d p)
          (λ q below. below-Visits n q d (omega arith)) in
      (l ++ p ∷ [], visit all)

module _ {S : Type 0} (handle : Handler S) where
  -- With no cycle and no NULL among the attached objects, processOsc ends for every handler: the
  -- objects below `p` can be listed, and any fuel that is no less than their number gives the result
  -- of offering the message to them in that order.
  pub process_osc_total :
      (rank : Ptr → ℕ) (p : Ptr) (w : World S)
      → Descends w.store rank
      → (l : List Ptr) × Visits w.store p l
        × ((fuel : ℕ) → length l ≤ fuel → process_osc handle fuel p w ≡ some (offer handle l w))
  process_osc_total rank p w d =
      let (l, v) = below-Visits w.store rank (suc (rank p)) p d (omega arith) in
      (l, v, λ fuel h. process_osc-offer handle w.store fuel p w v refl h)

  scan_self :
      (fuel : ℕ) (p : Ptr) (w : World S) (qs : List Ptr)
      → (w.store p).objects ≡ p ∷ qs
      → p ≢ null
      → scan handle fuel p 0 w ≡ none
  unfolding scan
  scan_self zero p w qs e set = refl
  scan_self (suc fuel) p w qs e set = ground (arith, e, scan_self fuel p w qs e set)

  -- An object whose first attached object is itself sends processOsc into endless recursion, whatever
  -- the handlers do: no fuel is enough.
  pub process_osc_self :
      (fuel : ℕ) (p : Ptr) (w : World S) (qs : List Ptr)
      → (w.store p).objects ≡ p ∷ qs
      → p ≢ null
      → process_osc handle fuel p w ≡ none
  unfolding process_osc
  process_osc_self fuel p w qs e set = scan_self fuel p w qs e set
