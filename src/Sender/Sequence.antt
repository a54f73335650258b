-- ===== src/Sender/Sequence.antt =====
-- Several packets from one sender: one `send` for each, or all before one `send`.
use lopack.Prelude.{
  true, false, List, [], ◌∷◌, ◌++◌, some, ◌≡◌, ◌≢◌, refl, sym, ap, ◌∙◌, map, arith, append_assoc,
  append-nil, All,
}
use lopack.Prelude.Text.{Text}
use lopack.Types.{TimeTag}
use lopack.Outcome.{Outcome, done, thrown, and_then, ◌>>◌, send_exception}
use lopack.Liblo.{Liblo, Ptr, null, Arg, Heap, Sent}
use lopack.Liblo.Updates.{at, update_self}
use lopack.Liblo.Contract.{Contract}
use lopack.Liblo.Packets.{Packet, Packets, message, bundle}
use lopack.Sender.State.{Sender, send}
use lopack.Sender.Build.{begin_bundle, begin_message, end_message}
use lopack.Sender.Stream.{Streamed, stream}
use lopack.Sender.Script.{streamed, script, IsClean, AreClean, stream_all, stream_all-then}
use lopack.Sender.Emit.{idle, building, begin_and_fill}
use lopack.Sender.Nested.{emit}
use lopack.Sender.Arguments.{writing}
use lopack.Sender.Frame.{SameObjects}
use lopack.Sender.Closed.{stream_bundle}
use lopack.Sender.Delivery.{Carries, deliver}

module _ (lo : Liblo) where
  -- Stream a packet and send it, for each packet in turn.
  unfoldable pub send_each : List Packet → Sender lo → Outcome (Sender lo)
  send_each [] s = done s
  send_each (p ∷ ps) s = and_then ((stream_all lo (script p) >> send lo) s) (send_each ps)

module _ (lo : Liblo) (contract : Contract lo) where
  open contract use {heap, sent}

  -- The transmissions carry the packets to address `a`, one each and in order.
  abbrev pub CarriesAll : Ptr → List Packet → List Sent → Type 0
  CarriesAll a [] [] = Unit
  CarriesAll a [] (x ∷ xs) = ⊥
  CarriesAll a (p ∷ ps) [] = ⊥
  CarriesAll a (p ∷ ps) (x ∷ xs) = Carries lo contract a p x × CarriesAll a ps xs

  -- Streaming and sending packets (of texts without NUL) in turn from an idle sender with an address
  -- ends with no exception and an idle sender, and adds one transmission for each packet, in order;
  -- liblo's messages, bundles and blobs are then what they were before.
  pub deliver_each :
      (a : Ptr) (ps : List Packet) (w : lo.World)
      → a ≢ null
      → All IsClean ps
      → (v : lo.World) × (xs : List Sent) × (send_each lo ps (idle lo a w) ≡ done (idle lo a v))
        × (sent v ≡ sent w ++ xs)
        × CarriesAll a ps xs
        × SameObjects (heap w) (heap v)
  unfolding send_each
  deliver_each a [] w set clean =
      (w, [], refl, sym (append-nil (sent w)), tt, λ q. (refl, refl, refl))
  deliver_each a (p ∷ ps) w set clean =
      let one = deliver lo contract a w p set clean.0 in
      let (v, xs, runs, sends, carry, same) = deliver_each a ps one.world set clean.1 in
      (
        v,
        one.transmission ∷ xs,
        ap (λ o. and_then o (send_each lo ps)) one.runs ∙ runs,
        sends ∙ ap (λ ys. ys ++ xs) one.sends ∙ append_assoc (sent w) (one.transmission ∷ []) xs,
        (one.carries, carry),
        λ q. (
          (same q).0 ∙ (one.objects_same q).0,
          (same q).1 ∙ (one.objects_same q).1,
          (same q).2 ∙ (one.objects_same q).2,
        ),
      )

  -- `begin_bundle` does not read the flag that `end_bundle` took down.
  reopen_bundle :
      (a b : Ptr) (v : lo.World) (tag : TimeTag) (ps : Packets)
      → stream_all lo (script (bundle tag ps)) (building lo a (b ∷ []) false v)
        ≡ stream_all lo (script (bundle tag ps)) (building lo a (b ∷ []) true v)
  unfolding stream_all stream begin_bundle script
  reopen_bundle a b v tag ps = refl

  -- After two whole bundles in a row from an idle sender a bundle is still in progress, and `send`
  -- throws, whatever the bundles hold (texts without NUL).
  pub two_bundles_stuck :
      (a : Ptr) (w : lo.World) (tag tag' : TimeTag) (ps ps' : Packets)
      → AreClean ps
      → AreClean ps'
      → (s : Sender lo) × (stream_all lo
            (script (bundle tag ps) ++ script (bundle tag' ps'))
            (idle lo a w)
          ≡ done s)
        × (s.bundle_in_progress ≡ true)
        × (send lo s ≡ thrown send_exception s)
  unfolding send
  two_bundles_stuck a w tag tag' ps ps' clean clean' =
      let first = stream_bundle lo contract a w tag ps clean in
      let b = first.bundle_at in
      let second =
        emit lo contract (bundle tag' ps') a b [] first.world first.content clean' first.now in
      (
        building lo a (b ∷ []) true second.world,
        stream_all-then lo (script (bundle tag ps)) (script (bundle tag' ps')) (idle lo a w)
              first.runs
            ∙ reopen_bundle a b first.world tag' ps'
            ∙ second.runs,
        refl,
        ground arith,
      )

  -- A second message outside of bundles takes the place of the first, which was finished and not
  -- sent: its liblo message stays live and the sender has lost it.
  pub second_message_loses_first :
      (a : Ptr) (w : lo.World) (path path' : Text) (args : List Arg)
      → IsClean (message path args)
      → let m = (lo.message_new w).1 in
        (s : Sender lo) × (stream_all lo
            (script (message path args) ++ Streamed.begin_message path' ∷ [])
            (idle lo a w)
          ≡ done s)
        × ((heap s.world).messages m ≡ some args)
        × (s.message ≢ m)
        × (s.bundles ≡ [])
  unfolding stream_all stream begin_message end_message script
  second_message_loses_first a w path path' args clean =
      let m = (lo.message_new w).1 in
      let (v, run, messages, bundles, blobs, same) =
        begin_and_fill lo contract a [] false w path args clean in
      let live = at messages m ∙ update_self (heap w).messages m (some args) in
      let fresh = (contract.message_new_fresh v).1 in
      let new = ap (λ (h : Heap). h.messages m) (contract.message_new_heap v) in
      (
        writing lo a (lo.message_new v).1 [] path' false (lo.message_new v).0,
        stream_all-then lo (script (message path args)) (Streamed.begin_message path' ∷ [])
            (idle lo a w)
            (stream_all-then lo (Streamed.begin_message path ∷ map streamed args)
              (Streamed.end_message ∷ []) (idle lo a w) run),
        new ∙ ground (arith, live, fresh),
        ground (arith, live, fresh),
        refl,
      )
