-- ===== src/Sender/Frame.antt =====
-- What building inside an open bundle does to liblo's heap: one bundle grows at its end, and
-- everything else that is new is made of fresh objects.
use lopack.Prelude.{
  true, false, List, [], ◌∷◌, ◌++◌, none, some, ◌≡◌, refl, sym, ap, ◌∙◌, append_assoc, append-nil,
  arith, ◌==◌, Bool-cases, ==_iff,
}
use lopack.Liblo.{Ptr, Arg, Element, message_ref, bundle_ref, Bundle, Heap, update}
use lopack.Prelude.Text.{Text}
use lopack.Liblo.Updates.{at}
use lopack.Liblo.Members.{has, has-append}
use lopack.Liblo.Live.{Holds-frame, Holds-live_messages, Holds-live_bundles}
use lopack.Liblo.Contract.{with_element, freed}
use lopack.Liblo.Packets.{Packet, Holds}

abbrev pub extended : Bundle → List Element → Bundle
extended c es = record c { elements = c.elements ++ es }

-- From heap `h` to heap `k` bundle `b`, which was `c`, got the elements `es`; the messages `ms` and
-- the bundles `bs` are new.
pub record Grown (h k : Heap) (b : Ptr) (c : Bundle) (es : List Element) (ms bs : List Ptr)
    : Type 0 where
  pub was : h.bundles b ≡ some c
  pub now : k.bundles b ≡ some (extended c es)
  pub fresh_messages : (q : Ptr) → has q ms ≡ true → h.messages q ≡ none
  pub fresh_bundles : (q : Ptr) → has q bs ≡ true → h.bundles q ≡ none
  pub same_messages : (q : Ptr) → has q ms ≡ false → k.messages q ≡ h.messages q
  pub same_bundles : (q : Ptr) → has q bs ≡ false → (q == b) ≡ false → k.bundles q ≡ h.bundles q
  pub blobs : k.blobs ≡ h.blobs

pub Grown-trans :
    {h k l : Heap} {b : Ptr} {c : Bundle} {es es' : List Element} {ms ms' bs bs' : List Ptr}
    → Grown h k b c es ms bs
    → Grown k l b (extended c es) es' ms' bs'
    → Grown h l b c (es ++ es') (ms ++ ms') (bs ++ bs')
Grown-trans {h} {k} {l} {b} {c} {es} {es'} {ms} {ms'} {bs} {bs'} u v = record {
  was = u.was;
  now = v.now ∙ ap (λ xs. some (record c { elements = xs })) (append_assoc c.elements es es');
  fresh_messages = λ q i.
      ground
        (arith, has-append q ms ms', u.fresh_messages q, u.same_messages q, v.fresh_messages q);
  fresh_bundles = λ q i.
      ground
        (arith, has-append q bs bs', u.fresh_bundles q, u.same_bundles q, v.fresh_bundles q, u.now);
  same_messages = λ q o. ground (arith, has-append q ms ms', u.same_messages q, v.same_messages q);
  same_bundles = λ q o n. ground (arith, has-append q bs bs', u.same_bundles q, v.same_bundles q);
  blobs = v.blobs ∙ u.blobs;
}

-- A new message `m` was put under `b`.
pub Grown-message :
    {h k : Heap} (b : Ptr) (c : Bundle) (path : Text) (m : Ptr) (args : List Arg)
    → h.bundles b ≡ some c
    → h.messages m ≡ none
    → k.messages ≡ update h.messages m (some args)
    → k.bundles ≡ update h.bundles b (some (with_element c (message_ref path m)))
    → k.blobs ≡ h.blobs
    → Grown h k b c (message_ref path m ∷ []) (m ∷ []) []
Grown-message {h} {k} b c path m args was fresh messages bundles blobs = record {
  was = was;
  now = at bundles b ∙ rw ((==_iff b b).1 refl);
  fresh_messages = λ q i. ground (arith, fresh);
  fresh_bundles = λ q i. cc;
  same_messages = λ q o. at messages q ∙ ground arith;
  same_bundles = λ q o n. at bundles q ∙ rw n;
  blobs = blobs;
}

-- A new bundle `b'` was put under `b`, and then grew.
pub Grown-bundle :
    {h j k : Heap} (b : Ptr) (c : Bundle) (b' : Ptr) (c' : Bundle) {es : List Element}
    {ms bs : List Ptr}
    → h.bundles b ≡ some c
    → h.bundles b' ≡ none
    → j.messages ≡ h.messages
    → j.bundles ≡ update (update h.bundles b' (some c')) b (some (with_element c (bundle_ref b')))
    → j.blobs ≡ h.blobs
    → Grown j k b' c' es ms bs
    → Grown h k b c (bundle_ref b' ∷ []) ms (b' ∷ bs)
Grown-bundle {h} {j} {k} b c b' c' {bs} was fresh messages bundles blobs g = record {
  was = was;
  now = ground (arith, at bundles b, g.same_bundles b, g.fresh_bundles b, Bool-cases (has b bs));
  fresh_messages = λ q i. ground (arith, at messages q, g.fresh_messages q);
  fresh_bundles = λ q i. ground (arith, at bundles q, g.fresh_bundles q);
  same_messages = λ q o. ground (arith, at messages q, g.same_messages q);
  same_bundles = λ q o n. ground (arith, at bundles q, g.same_bundles q);
  blobs = g.blobs ∙ blobs;
}

pub Grown-refl : {h : Heap} (b : Ptr) (c : Bundle) → h.bundles b ≡ some c → Grown h h b c [] [] []
Grown-refl b c was = record {
  was = was;
  now = was ∙ ap (λ xs. some (record c { elements = xs })) (sym (append-nil c.elements));
  fresh_messages = λ q i. cc;
  fresh_bundles = λ q i. cc;
  same_messages = λ q o. refl;
  same_bundles = λ q o n. refl;
  blobs = refl;
}

-- A packet that was put under `b` is still held when `b` has grown further.
pub Holds-grow :
    {h k l : Heap} {b : Ptr} {c c' : Bundle} {e : Element} {es : List Element} {p : Packet}
    {ms ms' bs bs' : List Ptr}
    → Holds k e p ms bs
    → Grown h k b c (e ∷ []) ms bs
    → Grown k l b c' es ms' bs'
    → Holds l e p ms bs
Holds-grow {b} {ms'} {bs'} holds u v =
    Holds-frame holds
      (λ q i.
        v.same_messages q (
          ground
            (arith, Bool-cases (has q ms'), v.fresh_messages q, Holds-live_messages holds q i)))
      (λ q i.
        v.same_bundles q
          (ground (arith, Bool-cases (has q bs'), v.fresh_bundles q, Holds-live_bundles holds q i))
          (ground (arith, u.fresh_bundles q, u.was)))

-- The same messages, bundles and blobs are live, with the same contents.
abbrev pub SameObjects : Heap → Heap → Type 0
SameObjects h k =
    (q : Ptr)
    → (k.messages q ≡ h.messages q) × (k.bundles q ≡ h.bundles q) × (k.blobs q ≡ h.blobs q)

-- Giving back a new bundle with all that it was given leaves the heap as it was before it.
pub Grown-freed :
    {j k : Heap} {b : Ptr} {c : Bundle} {es : List Element} {ms bs : List Ptr} (h : Heap)
    → h.bundles b ≡ none
    → j ≡ record h { bundles = update h.bundles b (some c) }
    → Grown j k b c es ms bs
    → SameObjects h (freed ms (b ∷ bs) k)
Grown-freed {b} {ms} {bs} h fresh new g q = (
  ground (
    arith,
    ap (λ (i : Heap). i.messages q) new,
    Bool-cases (has q ms),
    g.fresh_messages q,
    g.same_messages q,
  ),
  ground (
    arith,
    ap (λ (i : Heap). i.bundles q) new,
    Bool-cases (q == b),
    ==_iff q b,
    Bool-cases (has q bs),
    g.fresh_bundles q,
    g.same_bundles q,
  ),
  at g.blobs q ∙ ap (λ (i : Heap). i.blobs q) new,
)
