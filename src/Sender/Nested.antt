-- ===== src/Sender/Nested.antt =====
-- Streaming a packet, with the bundles in it, while a bundle is open.
use lopack.Prelude.{true, List, [], ◌∷◌, ◌++◌, none, some, ◌≡◌, refl, ap, ◌∙◌, arith, Bool-cases}
use lopack.Types.{TimeTag}
use lopack.Liblo.{Liblo, Ptr, Element, bundle_ref, Bundle, Heap, update}
use lopack.Liblo.Updates.{at}
use lopack.Liblo.Members.{has, Distinct-append}
use lopack.Liblo.Live.{Holds-live_messages, Holds-live_bundles}
use lopack.Liblo.Contract.{Contract, with_element}
use lopack.Liblo.Packets.{
  Packet, Packets, message, bundle, end, next, held_bundle, held_end, held_next,
}
use lopack.Sender.Build.{begin_bundle, end_bundle}
use lopack.Sender.Stream.{Streamed, stream}
use lopack.Sender.Script.{script, script_all, IsClean, AreClean, stream_all, stream_all-then}
use lopack.Sender.Frame.{extended, Grown-refl, Grown-trans, Grown-bundle, Holds-grow}
use lopack.Sender.Emit.{building, Emitted, EmittedAll, emit_message}

module _ (lo : Liblo) (contract : Contract lo) where
  open contract use {heap, sent}

  emit_end :
      (a b : Ptr) (bs : List Ptr) (w : lo.World) (c : Bundle)
      → (heap w).bundles b ≡ some c
      → EmittedAll lo contract a b bs w c end
  unfolding stream_all script
  emit_end a b bs w c was = record {
    world = w;
    elements = [];
    messages = [];
    bundles = [];
    runs = refl;
    holds = held_end;
    grown = Grown-refl b c was;
    distinct_messages = tt;
    distinct_bundles = tt;
    sent_same = refl;
  }

  emit_next :
      (a b : Ptr) (bs : List Ptr) (w : lo.World) (c : Bundle) (p : Packet) (ps : Packets)
      → Emitted lo contract a b bs w c p
      → ((v : lo.World) (e : Element)
          → (heap v).bundles b ≡ some (extended c (e ∷ []))
          → EmittedAll lo contract a b bs v (extended c (e ∷ [])) ps)
      → EmittedAll lo contract a b bs w c (next p ps)
  unfolding script
  emit_next a b bs w c p ps one emit_rest =
      let rest = emit_rest one.world one.element one.grown.now in
      record {
        world = rest.world;
        elements = one.element ∷ rest.elements;
        messages = one.messages ++ rest.messages;
        bundles = one.bundles ++ rest.bundles;
        runs =
            stream_all-then lo (script p) (script_all ps) (building lo a (b ∷ bs) true w) one.runs
            ∙ rest.runs;
        holds = held_next (Holds-grow one.holds one.grown rest.grown) rest.holds;
        grown = Grown-trans one.grown rest.grown;
        distinct_messages =
            Distinct-append one.messages rest.messages one.distinct_messages rest.distinct_messages
              (λ q i. ground (
                arith,
                Bool-cases (has q rest.messages),
                rest.grown.fresh_messages q,
                Holds-live_messages one.holds q i,
              ));
        distinct_bundles =
            Distinct-append one.bundles rest.bundles one.distinct_bundles rest.distinct_bundles
              (λ q i. ground (
                arith,
                Bool-cases (has q rest.bundles),
                rest.grown.fresh_bundles q,
                Holds-live_bundles one.holds q i,
              ));
        sent_same = rest.sent_same ∙ one.sent_same;
      }

  -- `begin_bundle tag`, the contents and `end_bundle`.
  emit_bundle :
      (a b : Ptr) (bs : List Ptr) (w : lo.World) (c : Bundle) (tag : TimeTag) (ps : Packets)
      → (heap w).bundles b ≡ some c
      → (let b' = (lo.bundle_new tag w).1 in
          (heap (lo.bundle_add_bundle b b' (lo.bundle_new tag w).0)).bundles b'
            ≡ some (record { tag = tag; elements = [] })
          → EmittedAll lo contract a b'
              (b ∷ bs)
              (lo.bundle_add_bundle b b' (lo.bundle_new tag w).0)
              (record { tag = tag; elements = [] })
              ps)
      → Emitted lo contract a b bs w c (bundle tag ps)
  unfolding stream_all stream begin_bundle end_bundle script
  emit_bundle a b bs w c tag ps was emit_contents = record {
    world = inner.world;
    element = bundle_ref b';
    messages = inner.messages;
    bundles = b' ∷ inner.bundles;
    runs =
        stream_all-then lo (script_all ps) (Streamed.end_bundle ∷ [])
          (building lo a (b' ∷ b ∷ bs) true w2) inner.runs;
    holds = held_bundle inner.grown.now inner.holds;
    grown = Grown-bundle b c b' empty was fresh messages bundles blobs inner.grown;
    distinct_messages = inner.distinct_messages;
    distinct_bundles = (
      ground
          (arith, Bool-cases (has b' inner.bundles), inner.grown.fresh_bundles b', inner.grown.was),
      inner.distinct_bundles,
    );
    sent_same =
        inner.sent_same ∙ contract.bundle_add_bundle_sent b b' w1 ∙ contract.bundle_new_sent tag w;
  }
    where
      w1 : lo.World
      w1 = (lo.bundle_new tag w).0

      b' : Ptr
      b' = (lo.bundle_new tag w).1

      w2 : lo.World
      w2 = lo.bundle_add_bundle b b' w1

      empty : Bundle
      empty = record { tag = tag; elements = [] }

      fresh : (heap w).bundles b' ≡ none
      fresh = (contract.bundle_new_fresh tag w).1

      new : (heap w1).bundles ≡ update (heap w).bundles b' (some empty)
      new = ap (λ (h : Heap). h.bundles) (contract.bundle_new_heap tag w)

      added : heap w2 ≡ record (heap w1) {
        bundles = update (heap w1).bundles b (some (with_element c (bundle_ref b')));
      }
      added = contract.bundle_add_bundle_heap b b' w1 c (at new b ∙ ground (arith, was, fresh))

      messages : (heap w2).messages ≡ (heap w).messages
      messages =
          ap (λ (h : Heap). h.messages) added
          ∙ ap (λ (h : Heap). h.messages) (contract.bundle_new_heap tag w)

      bundles :
          (heap w2).bundles
          ≡ update
              (update (heap w).bundles b' (some empty))
              b
              (some (with_element c (bundle_ref b')))
      bundles =
          ap (λ (h : Heap). h.bundles) added
          ∙ ap (λ f. update f b (some (with_element c (bundle_ref b')))) new

      blobs : (heap w2).blobs ≡ (heap w).blobs
      blobs =
          ap (λ (h : Heap). h.blobs) added
          ∙ ap (λ (h : Heap). h.blobs) (contract.bundle_new_heap tag w)

      inner : EmittedAll lo contract a b' (b ∷ bs) w2 empty ps
      inner = emit_contents (at bundles b' ∙ ground (arith, was, fresh))

  mutual
    pub emit :
        (p : Packet) (a b : Ptr) (bs : List Ptr) (w : lo.World) (c : Bundle)
        → IsClean p
        → (heap w).bundles b ≡ some c
        → Emitted lo contract a b bs w c p
    emit (message path args) a b bs w c clean was =
        emit_message lo contract a b bs w c path args clean was
    emit (bundle tag ps) a b bs w c clean was =
        emit_bundle a b bs w c tag ps was (emit_all ps a _ (b ∷ bs) _ _ clean)

    pub emit_all :
        (ps : Packets) (a b : Ptr) (bs : List Ptr) (w : lo.World) (c : Bundle)
        → AreClean ps
        → (heap w).bundles b ≡ some c
        → EmittedAll lo contract a b bs w c ps
    emit_all end a b bs w c clean was = emit_end a b bs w c was
    emit_all (next p ps) a b bs w c clean was =
        emit_next a b bs w c p ps (emit p a b bs w c clean.0 was)
          (λ v e. emit_all ps a b bs v (extended c (e ∷ [])) clean.1)
