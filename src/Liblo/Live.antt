-- ===== src/Liblo/Live.antt =====
-- The objects that a packet is made of: it stays as it is where they do, and they are live.
use lopack.Prelude.{true, List, none, ◌≡◌, ◌≢◌, ◌∙◌, arith}
use lopack.Liblo.Store.{Ptr, Element, Heap}
use lopack.Liblo.Members.{has, has-append}
use lopack.Liblo.Packets.{
  Packet, Packets, Holds, HoldsAll, held_message, held_bundle, held_end, held_next,
}

-- What a packet is made of stays as it is where its objects do.
mutual
  pub Holds-frame :
      {h k : Heap} {e : Element} {p : Packet} {ms bs : List Ptr}
      → Holds h e p ms bs
      → ((q : Ptr) → has q ms ≡ true → k.messages q ≡ h.messages q)
      → ((q : Ptr) → has q bs ≡ true → k.bundles q ≡ h.bundles q)
      → Holds k e p ms bs
  Holds-frame (held_message {m} at) sm sb = held_message (sm m (ground arith) ∙ at)
  Holds-frame (held_bundle {b} at all) sm sb =
      held_bundle (sb b (ground arith) ∙ at) (HoldsAll-frame all sm (λ q i. sb q (ground arith)))

  pub HoldsAll-frame :
      {h k : Heap} {es : List Element} {ps : Packets} {ms bs : List Ptr}
      → HoldsAll h es ps ms bs
      → ((q : Ptr) → has q ms ≡ true → k.messages q ≡ h.messages q)
      → ((q : Ptr) → has q bs ≡ true → k.bundles q ≡ h.bundles q)
      → HoldsAll k es ps ms bs
  HoldsAll-frame held_end sm sb = held_end
  HoldsAll-frame (held_next {ms} {ms'} {bs} {bs'} one rest) sm sb =
      held_next
        (Holds-frame one (λ q i. sm q (ground (arith, has-append q ms ms')))
          (λ q i. sb q (ground (arith, has-append q bs bs'))))
        (HoldsAll-frame rest (λ q i. sm q (ground (arith, has-append q ms ms')))
          (λ q i. sb q (ground (arith, has-append q bs bs'))))

-- The objects of a packet are live.
mutual
  pub Holds-live_messages :
      {h : Heap} {e : Element} {p : Packet} {ms bs : List Ptr}
      → Holds h e p ms bs
      → (q : Ptr) → has q ms ≡ true
      → h.messages q ≢ none
  Holds-live_messages (held_message {m} at) q i = ground (arith, at)
  Holds-live_messages (held_bundle at all) q i = HoldsAll-live_messages all q i

  pub HoldsAll-live_messages :
      {h : Heap} {es : List Element} {ps : Packets} {ms bs : List Ptr}
      → HoldsAll h es ps ms bs
      → (q : Ptr) → has q ms ≡ true
      → h.messages q ≢ none
  HoldsAll-live_messages held_end q i = cc
  HoldsAll-live_messages (held_next {ms} {ms'} one rest) q i =
      ground (arith, has-append q ms ms', Holds-live_messages one q, HoldsAll-live_messages rest q)

mutual
  pub Holds-live_bundles :
      {h : Heap} {e : Element} {p : Packet} {ms bs : List Ptr}
      → Holds h e p ms bs
      → (q : Ptr) → has q bs ≡ true
      → h.bundles q ≢ none
  Holds-live_bundles (held_message at) q i = cc
  Holds-live_bundles (held_bundle {b} at all) q i = ground (arith, at, HoldsAll-live_bundles all q)

  pub HoldsAll-live_bundles :
      {h : Heap} {es : List Element} {ps : Packets} {ms bs : List Ptr}
      → HoldsAll h es ps ms bs
      → (q : Ptr) → has q bs ≡ true
      → h.bundles q ≢ none
  HoldsAll-live_bundles held_end q i = cc
  HoldsAll-live_bundles (held_next {bs} {bs'} one rest) q i =
      ground (arith, has-append q bs bs', Holds-live_bundles one q, HoldsAll-live_bundles rest q)
