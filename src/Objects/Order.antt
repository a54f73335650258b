-- ===== src/Objects/Order.antt =====
-- The order in which objects are offered a message.
use lopack.Prelude.{
  ℕ, zero, suc, Bool, true, false, List, [], ◌∷◌, ◌++◌, Option, none, some, ◌≡◌, refl, sym, ap, ◌∙◌,
  get_elem?, length, length-append, ◌≤◌, ◌<◌, arith, ◌==◌, append_assoc,
}
use lopack.Liblo.{Ptr, null}
use lopack.Objects.Graph.{OscObject}
use lopack.Objects.Dispatch.{Handler, World, process_osc_message, unless_handled, scan, process_osc}

-- `l` lists the objects below `p`, depth first: what is attached comes before what it is attached
-- to, in the order of attachment. There is no such list where objects are attached in a cycle.
mutual
  pub data Visits (store : Ptr → OscObject) : Ptr → List Ptr → Type 0 where
    visit :
        {p : Ptr} {l : List Ptr}
        → VisitsAll store (store p).objects l
        → Visits store p (l ++ p ∷ [])

  pub data VisitsAll (store : Ptr → OscObject) : List Ptr → List Ptr → Type 0 where
    no_more : VisitsAll store [] []
    more :
        {q : Ptr} {qs l l' : List Ptr}
        → (q == null) ≡ false
        → Visits store q l
        → VisitsAll store qs l'
        → VisitsAll store (q ∷ qs) (l ++ l')

pub Visits-pos :
    {store : Ptr → OscObject} {p : Ptr} {l : List Ptr} → Visits store p l → 0 < length l
Visits-pos (visit {p} {l} all) = omega (arith, length-append l (p ∷ []))

module _ {S : Type 0} (handle : Handler S) where
  -- Offer the message to each object of a list until one handles it.
  unfoldable pub offer : List Ptr → World S → World S × Bool
  offer [] w = (w, false)
  offer (p ∷ ps) w =
      let (w', handled) = process_osc_message handle p w in
      elim handled [ true ↦ (w', true) | false ↦ offer ps w' ]

  -- The second list is offered what the first does not handle.
  abbrev pub otherwise : World S × Bool → List Ptr → World S × Bool
  otherwise (w, true) l = (w, true)
  otherwise (w, false) l = offer l w

  pub offer-append : (l l' : List Ptr) (w : World S) → offer (l ++ l') w ≡ otherwise (offer l w) l'
  unfolding offer
  offer-append [] l' w = refl
  offer-append (p ∷ ps) l' w = ground (arith, offer-append ps l' (process_osc_message handle p w).0)

  pub offer-store : (l : List Ptr) (w : World S) → (offer l w).0.store ≡ w.store
  unfolding offer process_osc_message
  offer-store [] w = refl
  offer-store (p ∷ ps) w = ground (arith, offer-store ps (process_osc_message handle p w).0)

abbrev pub drop : ℕ → List Ptr → List Ptr
drop zero xs = xs
drop (suc n) [] = []
drop (suc n) (x ∷ xs) = drop n xs

pub get_elem?-drop_nil : (i : ℕ) (xs : List Ptr) → drop i xs ≡ [] → get_elem? xs i ≡ none
get_elem?-drop_nil i [] e = refl
get_elem?-drop_nil zero (x ∷ xs) e = cc
get_elem?-drop_nil (suc i) (x ∷ xs) e = get_elem?-drop_nil i xs e

pub get_elem?-drop_cons :
    (i : ℕ) (xs : List Ptr) (q : Ptr) (qs : List Ptr)
    → drop i xs ≡ q ∷ qs
    → (get_elem? xs i ≡ some q) × (drop (suc i) xs ≡ qs)
get_elem?-drop_cons zero [] q qs e = cc
get_elem?-drop_cons (suc i) [] q qs e = cc
get_elem?-drop_cons zero (x ∷ xs) q qs e = ground arith
get_elem?-drop_cons (suc i) (x ∷ xs) q qs e = get_elem?-drop_cons i xs q qs e

module _ {S : Type 0} (handle : Handler S) (store : Ptr → OscObject) where
  scan_end :
      (fuel : ℕ) (p : Ptr) (i : ℕ) (w : World S)
      → drop i (w.store p).objects ≡ []
      → scan handle (suc fuel) p i w ≡ some (offer handle (p ∷ []) w)
  unfolding scan offer
  scan_end fuel p i w e = ground (arith, get_elem?-drop_nil i (w.store p).objects e)

  scan_step :
      (fuel : ℕ) (p : Ptr) (i : ℕ) (w : World S) (q : Ptr) (l : List Ptr)
      → get_elem? (w.store p).objects i ≡ some q
      → (q == null) ≡ false
      → scan handle fuel q 0 w ≡ some (offer handle l w)
      → scan handle (suc fuel) p i w
        ≡ unless_handled handle (some (offer handle l w)) (scan handle fuel p (suc i))
  unfolding scan
  scan_step fuel p i w q l e set one = ground (arith, e, set, one)

  -- What `scan_step` leaves is the list's offer, if the rest of the scan is the rest's.
  unless_handled-offer :
      (l l' : List Ptr) (next : World S → Option (World S × Bool)) (w : World S)
      → next (offer handle l w).0 ≡ some (offer handle l' (offer handle l w).0)
      → unless_handled handle (some (offer handle l w)) next ≡ some (offer handle (l ++ l') w)
  unless_handled-offer l l' next w k = ground (arith, offer-append handle l l' w)

  mutual
    scan_visit :
        {q : Ptr} {l : List Ptr} (fuel : ℕ) (w : World S)
        → Visits store q l
        → w.store ≡ store
        → length l ≤ fuel
        → scan handle fuel q 0 w ≡ some (offer handle l w)
    scan_visit fuel w (visit {p} {l} all) e h =
        scan_all p fuel 0 w all e (ap (λ s. (s p).objects) e)
          (omega (arith, length-append l (p ∷ [])))

    scan_all :
        {qs l : List Ptr} (p : Ptr) (fuel i : ℕ) (w : World S)
        → VisitsAll store qs l
        → w.store ≡ store
        → drop i (w.store p).objects ≡ qs
        → length l < fuel
        → scan handle fuel p i w ≡ some (offer handle (l ++ p ∷ []) w)
    scan_all p zero i w all e d h = elim h [ ]
    scan_all p (suc fuel) i w no_more e d h = scan_end fuel p i w d
    scan_all p (suc fuel) i w (more {q} {qs} {l} {l'} set one rest) e d h =
        let (got, left) = get_elem?-drop_cons i (w.store p).objects q qs d in
        let same = offer-store handle l w in
        scan_step fuel p i w q l got set
          (scan_visit fuel w one e (omega (arith, length-append l l')))
        ∙ unless_handled-offer l (l' ++ p ∷ []) (scan handle fuel p (suc i)) w (
            scan_all p fuel (suc i) (offer handle l w).0 rest (same ∙ e)
              (ap (λ s. drop (suc i) (s p).objects) same ∙ left)
              (omega (arith, length-append l l', Visits-pos one)))
        ∙ ap (λ xs. some (offer handle xs w)) (sym (append_assoc l l' (p ∷ [])))

  -- Where the objects below `p` can be listed, so that no cycle is attached, processOsc of `p` ends
  -- (the fuel need be no more than the number of visits) and does what offering the message to that
  -- list does: each object in depth-first order, until one handles it.
  pub process_osc-offer :
      {l : List Ptr} (fuel : ℕ) (p : Ptr) (w : World S)
      → Visits store p l
      → w.store ≡ store
      → length l ≤ fuel
      → process_osc handle fuel p w ≡ some (offer handle l w)
  unfolding process_osc
  process_osc-offer fuel p w v e h = scan_visit fuel w v e h
