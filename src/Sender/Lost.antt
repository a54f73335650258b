-- ===== src/Sender/Lost.antt =====
-- A message that is streamed after a whole bundle.
use lopack.Prelude.{
  false, List, [], ◌∷◌, ◌++◌, none, some, ◌≡◌, ◌≢◌, refl, ap, ◌∙◌, map, arith, Bool-cases,
}
use lopack.Prelude.Text.{Text}
use lopack.Types.{TimeTag}
use lopack.Outcome.{done, and_then, ◌>>◌}
use lopack.Liblo.{Liblo, Ptr, null, Arg, bundle_ref, Heap, Sent}
use lopack.Liblo.Updates.{at}
use lopack.Liblo.Members.{has}
use lopack.Liblo.Live.{Holds-frame, Holds-live_messages}
use lopack.Liblo.Contract.{Contract}
use lopack.Liblo.Packets.{Packets, message, bundle, Holds}
use lopack.Sender.State.{send}
use lopack.Sender.Build.{end_message}
use lopack.Sender.Stream.{Streamed, stream}
use lopack.Sender.Script.{streamed, script, IsClean, AreClean, stream_all, stream_all-then}
use lopack.Sender.Emit.{idle, building, begin_and_fill}
use lopack.Sender.Arguments.{writing}
use lopack.Sender.Delivery.{Carries, ne→==, send_and_free}
use lopack.Sender.Closed.{stream_bundle}

module _ (lo : Liblo) (contract : Contract lo) where
  open contract use {heap, sent}

  -- `send` with a finished message beside a closed bundle.
  send-beside :
      (a b m : Ptr) (path : Text) (w : lo.World)
      → a ≢ null
      → send lo (record (writing lo a m (b ∷ []) path false w) { message_in_progress = false })
        ≡ done (idle lo a (lo.bundle_free_recursive b (lo.send_bundle a b w)))
  unfolding send
  send-beside a b m path w set = rw (ne→== a set)

  -- A message that is streamed after a whole bundle, before `send`, is lost (texts without NUL):
  -- `send` transmits the bundle alone and leaves an idle sender, and the liblo message stays live
  -- with its arguments.
  pub message_after_bundle_lost :
      (a : Ptr) (w : lo.World) (tag : TimeTag) (ps : Packets) (path : Text) (args : List Arg)
      → a ≢ null
      → AreClean ps
      → IsClean (message path args)
      → (v : lo.World) × (x : Sent) × (m : Ptr) × ((stream_all lo
                (script (bundle tag ps) ++ script (message path args))
              >> send lo)
            (idle lo a w)
          ≡ done (idle lo a v))
        × (sent v ≡ sent w ++ x ∷ [])
        × Carries lo contract a (bundle tag ps) x
        × ((heap v).messages m ≡ some args)
        × ((heap w).messages m ≡ none)
  unfolding stream_all stream end_message script
  message_after_bundle_lost a w tag ps path args set clean clean' =
      let one = stream_bundle lo contract a w tag ps clean in
      let b = one.bundle_at in
      let m = (lo.message_new one.world).1 in
      let (v, run, messages, bundles, blobs, same) =
        begin_and_fill lo contract a (b ∷ []) false one.world path args clean' in
      let fresh = (contract.message_new_fresh one.world).1 in
      let held : Holds (heap v) (bundle_ref b) (bundle tag ps) one.messages one.bundles =
        Holds-frame one.holds
          (λ q i. ground (arith, at messages q, fresh, Holds-live_messages one.holds q i))
          (λ q i. at bundles q) in
      let left = send_and_free lo contract a b v held one.distinct_messages one.distinct_bundles in
      (
        lo.bundle_free_recursive b (lo.send_bundle a b v),
        record { to = a; root = bundle_ref b; heap = heap v },
        m,
        ap (λ o. and_then o (send lo))
              (stream_all-then lo (script (bundle tag ps)) (script (message path args))
                  (idle lo a w) one.runs
                ∙ stream_all-then lo (Streamed.begin_message path ∷ map streamed args)
                    (Streamed.end_message ∷ []) (building lo a (b ∷ []) false one.world) run)
            ∙ send-beside a b m path v set,
        contract.bundle_free_recursive_sent _ _
            ∙ contract.send_bundle_sent a b v
            ∙ ap (λ xs. xs ++ record { to = a; root = bundle_ref b; heap = heap v } ∷ [])
                (same ∙ one.sent_same),
        record { messages = one.messages; bundles = one.bundles; to_address = refl; holds = held },
        ap (λ (h : Heap). h.messages m) left
            ∙ ground (
              arith,
              at messages m,
              Bool-cases (has m one.messages),
              Holds-live_messages one.holds m,
              fresh,
            ),
        ground (arith, fresh, (one.freed_same m).0),
      )
