-- ===== src/Liblo/Reference/Free.antt =====
-- Freeing a bundle with all that it refers to, on fuel: more than the number of bundles is enough.
use lopack.Prelude.{
  ℕ, zero, suc, List, [], ◌∷◌, ◌++◌, none, some, ◌≡◌, ◌≢◌, refl, sym, subst, ap, ap₂, ◌∙◌, ◌≤◌, ◌<◌,
  arith, length, length-append, fun_ext, Option-cases, inl, inr,
}
use lopack.Liblo.Store.{Ptr, Element, message_ref, bundle_ref, Heap}
use lopack.Liblo.Members.{
  has-append, Distinct, Distinct-front, Distinct-back, Distinct-apart, length-Distinct,
}
use lopack.Liblo.Packets.{
  Packet, Packets, Holds, HoldsAll, held_message, held_bundle, held_end, held_next,
}
use lopack.Liblo.Live.{HoldsAll-frame, Holds-live_bundles}
use lopack.Liblo.Contract.{freed}
use lopack.Liblo.Reference.Table.{lookup, put, lookup-erase}
use lopack.Liblo.Reference.State.{World, heap_of}

abbrev drop_message : Ptr → World → World
drop_message m w = record w { messages = put m none w.messages }

abbrev drop_bundle : Ptr → World → World
drop_bundle b w = record w { bundles = put b none w.bundles }

-- `free` is for the bundles among the elements.
free_elements : (Ptr → World → World) → List Element → World → World
free_elements free [] w = w
free_elements free (message_ref path m ∷ es) w = free_elements free es (drop_message m w)
free_elements free (bundle_ref b ∷ es) w = free_elements free es (free b w)

unfoldable pub free_bundle : ℕ → Ptr → World → World
unfolding free_elements
free_bundle zero b w = w
free_bundle (suc fuel) b w = elim (lookup w.bundles b) [
  | none ↦ w
  | some c ↦ free_elements (free_bundle fuel) c.elements (drop_bundle b w)
]

-- What dropping a message or a bundle keeps is kept.
module _ {A : Type 0} (f : World → A)
    (keep_message : (m : Ptr) (w : World) → f (drop_message m w) ≡ f w)
    (keep_bundle : (b : Ptr) (w : World) → f (drop_bundle b w) ≡ f w) where
  free_elements-keep :
      (free : Ptr → World → World)
      → ((b : Ptr) (w : World) → f (free b w) ≡ f w)
      → (es : List Element) (w : World) → f (free_elements free es w) ≡ f w
  unfolding free_elements
  free_elements-keep free keep [] w = refl
  free_elements-keep free keep (message_ref path m ∷ es) w =
      free_elements-keep free keep es (drop_message m w) ∙ keep_message m w
  free_elements-keep free keep (bundle_ref b ∷ es) w =
      free_elements-keep free keep es (free b w) ∙ keep b w

  pub free_bundle-keep : (fuel : ℕ) (b : Ptr) (w : World) → f (free_bundle fuel b w) ≡ f w
  unfolding free_bundle
  free_bundle-keep zero b w = refl
  free_bundle-keep (suc fuel) b w = elim (Option-cases (lookup w.bundles b)) [
    | inl e ↦ rw (e, free_bundle) refl
    | inr (c, e) ↦
        rw (e, free_bundle)
          (free_elements-keep (free_bundle fuel) (free_bundle-keep fuel) c.elements
              (drop_bundle b w)
            ∙ keep_bundle b w)
  ]

pub free_bundle_sent : (fuel : ℕ) (b : Ptr) (w : World) → (free_bundle fuel b w).sent ≡ w.sent
free_bundle_sent = free_bundle-keep (λ w. w.sent) (λ m w. refl) (λ b w. refl)

pub free_bundle_addresses :
    (fuel : ℕ) (b : Ptr) (w : World) → (free_bundle fuel b w).addresses ≡ w.addresses
free_bundle_addresses = free_bundle-keep (λ w. w.addresses) (λ m w. refl) (λ b w. refl)

-- Giving back in two goes.
freed-freed :
    (ms ms' bs bs' : List Ptr) (h : Heap)
    → freed ms' bs' (freed ms bs h) ≡ freed (ms ++ ms') (bs ++ bs') h
freed-freed ms ms' bs bs' h =
    ap₂ (λ f g. record h { messages = f; bundles = g })
      (fun_ext λ q. ground (arith, has-append q ms ms'))
      (fun_ext λ q. ground (arith, has-append q bs bs'))

drop_message_heap :
    (m : Ptr) (w : World) → heap_of (drop_message m w) ≡ freed (m ∷ []) [] (heap_of w)
drop_message_heap m w =
    ap (λ f. record (heap_of w) { messages = f })
      (lookup-erase m w.messages ∙ fun_ext λ q. ground arith)

drop_bundle_heap : (b : Ptr) (w : World) → heap_of (drop_bundle b w) ≡ freed [] (b ∷ []) (heap_of w)
drop_bundle_heap b w =
    ap (λ f. record (heap_of w) { bundles = f })
      (lookup-erase b w.bundles ∙ fun_ext λ q. ground arith)

-- What is apart from the first objects is held as before when those are given back.
rest_held :
    {h : Heap} {es : List Element} {ps : Packets} (ms ms' bs bs' : List Ptr)
    → Distinct (ms ++ ms')
    → Distinct (bs ++ bs')
    → HoldsAll h es ps ms' bs'
    → HoldsAll (freed ms bs h) es ps ms' bs'
rest_held ms ms' bs bs' dm db all =
    HoldsAll-frame all (λ q i. ground (arith, Distinct-apart ms ms' q dm, i))
      (λ q i. ground (arith, Distinct-apart bs bs' q db, i))

-- Freeing a bundle of which at most `n` bundles are made gives back what it is made of.
abbrev Frees : ℕ → (Ptr → World → World) → Type 0
Frees n free =
    (b : Ptr) (w : World) (p : Packet) (ms bs : List Ptr)
    → Holds (heap_of w) (bundle_ref b) p ms bs
    → Distinct ms
    → Distinct bs
    → length bs ≤ n
    → heap_of (free b w) ≡ freed ms bs (heap_of w)

free_elements_heap :
    (n : ℕ) (free : Ptr → World → World)
    → Frees n free
    → (es : List Element) (w : World) (ps : Packets) (ms bs : List Ptr)
    → HoldsAll (heap_of w) es ps ms bs
    → Distinct ms
    → Distinct bs
    → length bs ≤ n
    → heap_of (free_elements free es w) ≡ freed ms bs (heap_of w)
unfolding free_elements
free_elements_heap n free one [] w ps ms bs held_end dm db few = refl
free_elements_heap n free one (message_ref path m ∷ es) w ps ms bs
      (held_next {ps = ps'} {ms'} {bs'} (held_message at) rest) dm db few =
    let e = drop_message_heap m w in
    free_elements_heap n free one es (drop_message m w) ps' ms' bs'
      (subst (λ h. HoldsAll h es ps' ms' bs') (sym e) (rest_held (m ∷ []) ms' [] bs' dm db rest))
      dm.1 db few
    ∙ ap (freed ms' bs') e
    ∙ freed-freed (m ∷ []) ms' [] bs' (heap_of w)
free_elements_heap n free one (bundle_ref b ∷ es) w ps ms bs
      (held_next {p} {ps = ps'} {ms = ms1} {ms'} {bs = bs1} {bs'} first rest) dm db few =
    let e =
      one b w p ms1 bs1 first (Distinct-front ms1 ms' dm) (Distinct-front bs1 bs' db)
        (omega (arith, length-append bs1 bs')) in
    free_elements_heap n free one es (free b w) ps' ms' bs'
      (subst (λ h. HoldsAll h es ps' ms' bs') (sym e) (rest_held ms1 ms' bs1 bs' dm db rest))
      (Distinct-back ms1 ms' dm) (Distinct-back bs1 bs' db) (omega (arith, length-append bs1 bs'))
    ∙ ap (freed ms' bs') e
    ∙ freed-freed ms1 ms' bs1 bs' (heap_of w)

free_bundle-Frees : (n : ℕ) → Frees n (free_bundle n)
unfolding free_bundle
free_bundle-Frees zero b w p ms bs (held_bundle at all) dm db few = absurd (omega arith)
free_bundle-Frees (suc n) b w p ms bs (held_bundle {es} {ps} {bs = bs'} at all) dm db few =
    let e = drop_bundle_heap b w in
    rw (at, free_bundle)
      (free_elements_heap n (free_bundle n) (free_bundle-Frees n) es (drop_bundle b w) ps ms bs'
          (subst (λ h. HoldsAll h es ps ms bs') (sym e) (rest_held [] ms (b ∷ []) bs' dm db all)) dm
          db.1 (omega arith)
        ∙ ap (freed ms bs') e
        ∙ freed-freed [] ms (b ∷ []) bs' (heap_of w))

live_below : (w : World) (q : Ptr) → lookup w.bundles q ≢ none → q < suc w.bundles.used
live_below w q live = ground arith

pub free_bundle_heap :
    (b : Ptr) (w : World) (p : Packet) (ms bs : List Ptr)
    → Holds (heap_of w) (bundle_ref b) p ms bs
    → Distinct ms
    → Distinct bs
    → heap_of (free_bundle (suc w.bundles.used) b w) ≡ freed ms bs (heap_of w)
free_bundle_heap b w p ms bs holds dm db =
    free_bundle-Frees (suc w.bundles.used) b w p ms bs holds dm db (
      length-Distinct (suc w.bundles.used) bs db
        (λ q i. live_below w q (Holds-live_bundles holds q i)))
