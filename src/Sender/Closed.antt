-- ===== src/Sender/Closed.antt =====
-- Streaming a whole bundle.
use lopack.Prelude.{true, false, List, [], ◌∷◌, some, ◌≡◌, ap, ◌∙◌, arith, Bool-cases}
use lopack.Types.{TimeTag}
use lopack.Outcome.{done}
use lopack.Liblo.{Liblo, Ptr, bundle_ref, Bundle, Heap}
use lopack.Liblo.Updates.{at, update_self}
use lopack.Liblo.Members.{has, Distinct}
use lopack.Liblo.Contract.{Contract, freed}
use lopack.Liblo.Packets.{Packets, bundle, Holds, held_bundle}
use lopack.Sender.Build.{begin_bundle, end_bundle}
use lopack.Sender.Stream.{Streamed, stream}
use lopack.Sender.Script.{script, script_all, AreClean, stream_all, stream_all-then}
use lopack.Sender.Frame.{SameObjects, Grown-freed}
use lopack.Sender.Emit.{idle, building}
use lopack.Sender.Nested.{emit_all}

module _ (lo : Liblo) (contract : Contract lo) where
  open contract use {heap, sent}

  -- A whole bundle was streamed from an idle sender: it is closed and stays in the sender.
  pub record Closed (a : Ptr) (w : lo.World) (tag : TimeTag) (ps : Packets) : Type 0 where
    pub bundle_at : Ptr
    pub world : lo.World
    pub content : Bundle
    pub messages : List Ptr
    pub bundles : List Ptr
    pub runs :
        stream_all lo (script (bundle tag ps)) (idle lo a w)
        ≡ done (building lo a (bundle_at ∷ []) false world)
    pub now : (heap world).bundles bundle_at ≡ some content
    pub holds : Holds (heap world) (bundle_ref bundle_at) (bundle tag ps) messages bundles
    pub distinct_messages : Distinct messages
    pub distinct_bundles : Distinct bundles
    -- without the bundle's objects the heap is as before
    pub freed_same : SameObjects (heap w) (freed messages bundles (heap world))
    pub sent_same : sent world ≡ sent w

  pub stream_bundle :
      (a : Ptr) (w : lo.World) (tag : TimeTag) (ps : Packets) → AreClean ps → Closed a w tag ps
  unfolding stream_all stream begin_bundle end_bundle script
  stream_bundle a w tag ps clean =
      let b = (lo.bundle_new tag w).1 in
      let v = (lo.bundle_new tag w).0 in
      let new = ap (λ (h : Heap). h.bundles) (contract.bundle_new_heap tag w) in
      let inner =
        emit_all lo contract ps a b [] v (record { tag = tag; elements = [] }) clean
          (at new b ∙ update_self (heap w).bundles b _) in
      record {
        bundle_at = b;
        world = inner.world;
        content = _;
        messages = inner.messages;
        bundles = b ∷ inner.bundles;
        runs =
            stream_all-then lo (script_all ps) (Streamed.end_bundle ∷ [])
              (building lo a (b ∷ []) true v) inner.runs;
        now = inner.grown.now;
        holds = held_bundle inner.grown.now inner.holds;
        distinct_messages = inner.distinct_messages;
        distinct_bundles = (
          ground (
            arith,
            Bool-cases (has b inner.bundles),
            inner.grown.fresh_bundles b,
            inner.grown.was,
          ),
          inner.distinct_bundles,
        );
        freed_same =
            Grown-freed (heap w) (contract.bundle_new_fresh tag w).1
              (contract.bundle_new_heap tag w) inner.grown;
        sent_same = inner.sent_same ∙ contract.bundle_new_sent tag w;
      }
