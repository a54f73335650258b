-- ===== src/Sender/Delivery.antt =====
-- Streaming a packet with `<<` and calling `send` (src/lopack/OscSender.cpp): what is transmitted.
use lopack.Prelude.{
  false, List, [], ◌∷◌, ◌++◌, some, ◌≡◌, ◌≢◌, refl, sym, subst, ap, ◌∙◌, map, arith, ◌==◌,
}
use lopack.Prelude.Text.{Text, HasNoNul, c_string-HasNoNul}
use lopack.Types.{TimeTag}
use lopack.Outcome.{done, and_then, ◌>>◌}
use lopack.Liblo.{Liblo, Ptr, null, Arg, message_ref, bundle_ref, Heap, Sent}
use lopack.Liblo.Updates.{at, update_self}
use lopack.Liblo.Members.{Distinct}
use lopack.Liblo.Contract.{Contract, drop_message, freed}
use lopack.Liblo.Packets.{Packet, Packets, message, bundle, Holds, held_message}
use lopack.Sender.State.{Sender, send}
use lopack.Sender.Build.{end_message}
use lopack.Sender.Stream.{Streamed, stream}
use lopack.Sender.Script.{streamed, script, IsClean, AreClean, stream_all, stream_all-then}
use lopack.Sender.Frame.{SameObjects}
use lopack.Sender.Closed.{stream_bundle}
use lopack.Sender.Emit.{idle, building, begin_and_fill}

pub ne→== : (p : Ptr) → p ≢ null → (p == null) ≡ false
ne→== p h = ground arith

module _ (lo : Liblo) (contract : Contract lo) where
  open contract use {heap, sent}

  -- A transmission to address `a` that holds the packet `p`.
  pub record Carries (a : Ptr) (p : Packet) (x : Sent) : Type 0 where
    pub messages : List Ptr
    pub bundles : List Ptr
    pub to_address : x.to ≡ a
    pub holds : Holds x.heap x.root p messages bundles

  -- From an idle sender in world `w`: the run, its end and the one transmission that it adds.
  pub record Delivered (a : Ptr) (w : lo.World) (p : Packet) : Type 0 where
    pub world : lo.World
    pub transmission : Sent
    pub runs : (stream_all lo (script p) >> send lo) (idle lo a w) ≡ done (idle lo a world)
    pub sends : sent world ≡ sent w ++ transmission ∷ []
    pub carries : Carries a p transmission
    pub objects_same : SameObjects (heap w) (heap world)

  -- A set-up sender with a finished message outside of bundles.
  abbrev finished : Ptr → Ptr → Text → lo.World → Sender lo
  finished a m path w = record (idle lo a w) {
    message = m;
    address_pattern = path;
    message_in_progress = false;
  }

  send-finished :
      (a m : Ptr) (path : Text) (w : lo.World)
      → a ≢ null
      → m ≢ null
      → HasNoNul path
      → send lo (finished a m path w)
        ≡ done (idle lo a (lo.message_free m (lo.send_message a path m w)))
  unfolding send
  send-finished a m path w set made clean =
      rw (c_string-HasNoNul path clean, ne→== a set, ne→== m made)

  send-bundle :
      (a b : Ptr) (w : lo.World)
      → a ≢ null
      → send lo (building lo a (b ∷ []) false w)
        ≡ done (idle lo a (lo.bundle_free_recursive b (lo.send_bundle a b w)))
  unfolding send
  send-bundle a b w set = rw (ne→== a set)

  -- Sending a bundle and freeing it gives back what it is made of.
  pub send_and_free :
      (a b : Ptr) (v : lo.World) {p : Packet} {ms bs : List Ptr}
      → Holds (heap v) (bundle_ref b) p ms bs
      → Distinct ms
      → Distinct bs
      → heap (lo.bundle_free_recursive b (lo.send_bundle a b v)) ≡ freed ms bs (heap v)
  send_and_free a b v {p} {ms} {bs} holds dm db =
      let same = contract.send_bundle_heap a b v in
      contract.bundle_free_recursive_heap b (lo.send_bundle a b v) p ms bs
        (subst (λ h. Holds h (bundle_ref b) p ms bs) (sym same) holds) dm db
      ∙ ap (freed ms bs) same

  deliver_message :
      (a : Ptr) (w : lo.World) (path : Text) (args : List Arg)
      → a ≢ null
      → IsClean (message path args)
      → Delivered a w (message path args)
  unfolding stream_all stream end_message send script
  deliver_message a w path args set clean =
      let m = (lo.message_new w).1 in
      let (v, run, messages, bundles, blobs, same) =
        begin_and_fill lo contract a [] false w path args clean in
      let x : Sent = record { to = a; root = message_ref path m; heap = heap v } in
      let left =
        contract.message_free_heap m (lo.send_message a path m v) (contract.message_new_fresh w).0
        ∙ ap (drop_message m) (contract.send_message_heap a path m v) in
      record {
        world = lo.message_free m (lo.send_message a path m v);
        transmission = x;
        runs =
            ap (λ o. and_then o (send lo))
              (stream_all-then lo (Streamed.begin_message path ∷ map streamed args)
                (Streamed.end_message ∷ []) (idle lo a w) run)
            ∙ send-finished a m path v set (contract.message_new_fresh w).0 clean.0;
        sends =
            contract.message_free_sent _ _
            ∙ contract.send_message_sent a path m v
            ∙ ap (λ xs. xs ++ x ∷ []) same;
        carries = record {
          messages = m ∷ [];
          bundles = [];
          to_address = refl;
          holds = held_message (at messages m ∙ update_self (heap w).messages m (some args));
        };
        objects_same = λ q. (
          ap (λ (h : Heap). h.messages q) left
              ∙ ground (arith, at messages q, (contract.message_new_fresh w).1),
          ap (λ (h : Heap). h.bundles q) left ∙ at bundles q,
          ap (λ (h : Heap). h.blobs q) left ∙ at blobs q,
        );
      }

  deliver_bundle :
      (a : Ptr) (w : lo.World) (tag : TimeTag) (ps : Packets)
      → a ≢ null
      → AreClean ps
      → Delivered a w (bundle tag ps)
  deliver_bundle a w tag ps set clean =
      let one = stream_bundle lo contract a w tag ps clean in
      let b = one.bundle_at in
      let x : Sent = record { to = a; root = bundle_ref b; heap = heap one.world } in
      record {
        world = lo.bundle_free_recursive b (lo.send_bundle a b one.world);
        transmission = x;
        runs = ap (λ o. and_then o (send lo)) one.runs ∙ send-bundle a b one.world set;
        sends =
            contract.bundle_free_recursive_sent _ _
            ∙ contract.send_bundle_sent a b one.world
            ∙ ap (λ xs. xs ++ x ∷ []) one.sent_same;
        carries = record {
          messages = one.messages;
          bundles = one.bundles;
          to_address = refl;
          holds = one.holds;
        };
        objects_same =
            subst (SameObjects (heap w))
              (sym
                (send_and_free a b one.world one.holds one.distinct_messages one.distinct_bundles))
              one.freed_same;
      }

  -- From an idle sender with an address, streaming any packet (of texts without NUL) and calling
  -- `send` ends with no exception and an idle sender with that address, and adds exactly one
  -- transmission: it goes to the address and its objects hold that packet, nested bundles included; and liblo's
  -- messages, bundles and blobs are after it what they were before, so what was made is given back.
  pub deliver : (a : Ptr) (w : lo.World) (p : Packet) → a ≢ null → IsClean p → Delivered a w p
  deliver a w (message path args) set clean = deliver_message a w path args set clean
  deliver a w (bundle tag ps) set clean = deliver_bundle a w tag ps set clean
