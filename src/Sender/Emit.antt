-- ===== src/Sender/Emit.antt =====
-- Streaming a message while a bundle is open puts the message at the end of that bundle.
use lopack.Prelude.{
  Bool, true, false, List, [], ◌∷◌, ◌++◌, some, ◌≡◌, ◌≢◌, refl, ap, ◌∙◌, map, arith,
}
use lopack.Prelude.Text.{Text, c_string, c_string-copy, c_string-HasNoNul}
use lopack.Outcome.{done, and_then}
use lopack.Liblo.{Liblo, Ptr, null, Arg, Element, message_ref, Bundle, Heap, update}
use lopack.Liblo.Updates.{at, update-update, update_self}
use lopack.Liblo.Members.{Distinct}
use lopack.Liblo.Contract.{Contract, with_element}
use lopack.Liblo.Packets.{Packet, Packets, message, Holds, HoldsAll, held_message}
use lopack.Sender.State.{Sender}
use lopack.Sender.Build.{begin_message, end_message}
use lopack.Sender.Stream.{Streamed, stream}
use lopack.Sender.Script.{streamed, script, script_all, IsClean, stream_all, stream_all-then}
use lopack.Sender.Frame.{Grown, Grown-message}
use lopack.Sender.Arguments.{writing, stream_arguments}

module _ (lo : Liblo) where
  -- A sender between messages, inside the open bundles `bs`.
  abbrev pub building : Ptr → List Ptr → Bool → lo.World → Sender lo
  building a bs inside w = record {
    address = a;
    message = null;
    bundles = bs;
    address_pattern = [];
    message_in_progress = false;
    bundle_in_progress = inside;
    world = w;
  }

  -- A sender that was set up and has nothing to send.
  abbrev pub idle : Ptr → lo.World → Sender lo
  idle a = building a [] false

module _ (lo : Liblo) where
  -- `end_message` adds a message that is one to the bundle at the back.
  end_message-inside :
      (a m b : Ptr) (bs : List Ptr) (path : Text) (v : lo.World)
      → m ≢ null
      → end_message lo (writing lo a m (b ∷ bs) path true v)
        ≡ done
            (building lo a (b ∷ bs) true (lo.bundle_add_message b (c_string (path ++ 0 ∷ [])) m v))
  unfolding end_message
  end_message-inside a m b bs path v set = ground arith

module _ (lo : Liblo) (contract : Contract lo) where
  open contract use {heap, sent}

  -- `begin_message path` and the arguments.
  pub begin_and_fill :
      (a : Ptr) (bs : List Ptr) (inside : Bool) (w : lo.World) (path : Text) (args : List Arg)
      → IsClean (message path args)
      → let m = (lo.message_new w).1 in
        (v : lo.World) × (stream_all lo
            (Streamed.begin_message path ∷ map streamed args)
            (building lo a bs inside w)
          ≡ done (writing lo a m bs path inside v))
        × ((heap v).messages ≡ update (heap w).messages m (some args))
        × ((heap v).bundles ≡ (heap w).bundles)
        × ((heap v).blobs ≡ (heap w).blobs)
        × (sent v ≡ sent w)
  unfolding stream_all stream begin_message
  begin_and_fill a bs inside w path args clean =
      let m = (lo.message_new w).1 in
      let new = ap (λ (h : Heap). h.messages) (contract.message_new_heap w) in
      let (v, run, filled) =
        stream_arguments lo contract a m bs path inside (lo.message_new w).0 args []
          (ground (arith, (contract.message_new_fresh w).0)) clean.1
          (at new m ∙ update_self (heap w).messages m (some [])) in
      (
        v,
        run,
        filled.messages
            ∙ ap (λ f. update f m (some args)) new
            ∙ update-update (heap w).messages m (some []) (some args),
        filled.bundles ∙ ap (λ (h : Heap). h.bundles) (contract.message_new_heap w),
        filled.blobs ∙ ap (λ (h : Heap). h.blobs) (contract.message_new_heap w),
        filled.sent_same ∙ contract.message_new_sent w,
      )

  module _ (a b : Ptr) (bs : List Ptr) (w : lo.World) (c : Bundle) where
    -- The packet was put at the end of the open bundle `b`.
    pub record Emitted (p : Packet) : Type 0 where
      pub world : lo.World
      pub element : Element
      pub messages : List Ptr
      pub bundles : List Ptr
      pub runs :
          stream_all lo (script p) (building lo a (b ∷ bs) true w)
          ≡ done (building lo a (b ∷ bs) true world)
      pub holds : Holds (heap world) element p messages bundles
      pub grown : Grown (heap w) (heap world) b c (element ∷ []) messages bundles
      pub distinct_messages : Distinct messages
      pub distinct_bundles : Distinct bundles
      pub sent_same : sent world ≡ sent w

    pub record EmittedAll (ps : Packets) : Type 0 where
      pub world : lo.World
      pub elements : List Element
      pub messages : List Ptr
      pub bundles : List Ptr
      pub runs :
          stream_all lo (script_all ps) (building lo a (b ∷ bs) true w)
          ≡ done (building lo a (b ∷ bs) true world)
      pub holds : HoldsAll (heap world) elements ps messages bundles
      pub grown : Grown (heap w) (heap world) b c elements messages bundles
      pub distinct_messages : Distinct messages
      pub distinct_bundles : Distinct bundles
      pub sent_same : sent world ≡ sent w

    pub emit_message :
        (path : Text) (args : List Arg)
        → IsClean (message path args)
        → (heap w).bundles b ≡ some c
        → Emitted (message path args)
    unfolding stream_all stream end_message script
    emit_message path args clean was =
        let m = (lo.message_new w).1 in
        let (v, run, messages, bundles, blobs, same) =
          begin_and_fill a (b ∷ bs) true w path args clean in
        let y = lo.bundle_add_message b path m v in
        let added = contract.bundle_add_message_heap b path m v c (at bundles b ∙ was) in
        let messages_y : (heap y).messages ≡ update (heap w).messages m (some args) =
          ap (λ (h : Heap). h.messages) added ∙ messages in
        record {
          world = y;
          element = message_ref path m;
          messages = m ∷ [];
          bundles = [];
          runs =
              stream_all-then lo (Streamed.begin_message path ∷ map streamed args)
                (Streamed.end_message ∷ []) (building lo a (b ∷ bs) true w) run
              ∙ ap (λ o. and_then o (stream_all lo []))
                  (end_message-inside lo a m b bs path v (contract.message_new_fresh w).0)
              ∙ ap (λ t. done (building lo a (b ∷ bs) true (lo.bundle_add_message b t m v)))
                  (c_string-copy path ∙ c_string-HasNoNul path clean.0);
          holds = held_message (at messages_y m ∙ update_self (heap w).messages m (some args));
          grown =
              Grown-message b c path m args was (contract.message_new_fresh w).1 messages_y
                (ap (λ (h : Heap). h.bundles) added
                  ∙ ap (λ f. update f b (some (with_element c (message_ref path m)))) bundles)
                (ap (λ (h : Heap). h.blobs) added ∙ blobs);
          distinct_messages = (refl, tt);
          distinct_bundles = tt;
          sent_same = contract.bundle_add_message_sent b path m v ∙ same;
        }
