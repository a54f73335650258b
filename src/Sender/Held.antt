-- ===== src/Sender/Held.antt =====
-- Streaming keeps the liblo objects live that a sender refers to.
use lopack.Prelude.{
  true, false, List, [], ◌∷◌, ◌++◌, Option, none, some, ◌≡◌, ◌≢◌, refl, sym, ap, subst, ◌∙◌, arith,
  Option-cases, Bool-cases, inl, inr, All,
}
use lopack.Prelude.Text.{Text, c_string}
use lopack.Types.{TimeTag, Symbol, Blob}
use lopack.Outcome.{done}
use lopack.Liblo.{Liblo, Ptr, Arg, symbol, Heap}
use lopack.Liblo.Updates.{at, update_self}
use lopack.Liblo.Contract.{Contract}
use lopack.Liblo.Kept.{
  Keeps-trans, All-Keeps, Kept, Kept-same, message_new-Kept, message_add-Kept, bundle_new-Kept,
  bundle_add_message-Kept, bundle_add_bundle-Kept, blob-Kept,
}
use lopack.Sender.State.{Sender}
use lopack.Sender.Build.{
  begin_message, add_argument, add_bool, add_char, add_nil, add_infinitum, add_int32, add_int64,
  add_float, add_double, add_string, add_symbol, add_midi_message, add_timetag, add_blob,
  end_message, begin_bundle, end_bundle, open_bundle,
}
use lopack.Sender.Stream.{Streamed, stream}

is_some : {A : Type 0} {o : Option A} {a : A} → o ≡ some a → o ≢ none
is_some e gone = cc

module _ (lo : Liblo) (contract : Contract lo) where
  open contract use {heap}

  -- A message in progress is live, and so are the bundles.
  pub record IsHeld (s : Sender lo) : Type 0 where
    pub message_live : s.message_in_progress ≡ true → (heap s.world).messages s.message ≢ none
    pub bundles_live : All (λ b. (heap s.world).bundles b ≢ none) s.bundles

  -- Only liblo's world changes, and what was live still is.
  pub IsHeld-Kept :
      (s : Sender lo) (v : lo.World)
      → IsHeld s
      → Kept lo contract s.world v
      → IsHeld (record s { world = v })
  IsHeld-Kept s v h keep = record {
    message_live = λ e. keep.0 s.message (h.message_live e);
    bundles_live = All-Keeps (heap s.world) (heap v) s.bundles keep h.bundles_live;
  }

  begin_message-IsHeld :
      (p : Text) (s t : Sender lo) → IsHeld s → begin_message lo p s ≡ done t → IsHeld t
  unfolding begin_message
  begin_message-IsHeld p s t h e =
      let made = lo.message_new s.world in
      let same : t ≡ record s {
        message = made.1;
        world = made.0;
        message_in_progress = true;
        address_pattern = p;
      } =
        ground (arith, e) in
      subst IsHeld (sym same) (record {
        message_live = λ _. is_some (
            at (ap (λ (g : Heap). g.messages) (contract.message_new_heap s.world)) made.1
            ∙ update_self (heap s.world).messages made.1 (some []));
        bundles_live =
            All-Keeps (heap s.world) (heap made.0) s.bundles (message_new-Kept lo contract s.world)
              h.bundles_live;
      })

  add_argument-IsHeld :
      (a : Arg) (s t : Sender lo) → IsHeld s → add_argument lo a s ≡ done t → IsHeld t
  unfolding add_argument
  add_argument-IsHeld a s t h e =
      let v = lo.message_add s.message a s.world in
      let same : t ≡ record s { world = v } = ground (arith, e) in
      subst IsHeld (sym same) (
        IsHeld-Kept s v h
          (message_add-Kept lo contract s.message a s.world (h.message_live (ground (arith, e)))))

  add_symbol-IsHeld :
      (y : Symbol) (s t : Sender lo) → IsHeld s → add_symbol lo y s ≡ done t → IsHeld t
  unfolding add_symbol
  add_symbol-IsHeld y s t h e = elim (Option-cases y.value) [
    | inl n ↦ ground (arith, n, e)
    | inr (text, n) ↦ add_argument-IsHeld (symbol (c_string text)) s t h (ground (arith, n, e))
  ]

  add_blob-IsHeld : (b : Blob) (s t : Sender lo) → IsHeld s → add_blob lo b s ≡ done t → IsHeld t
  unfolding add_blob
  add_blob-IsHeld b s t h e =
      let made = lo.blob_new b.size b.content s.world in
      let v = lo.blob_free made.1 (lo.message_add_blob s.message made.1 made.0) in
      let same : t ≡ record s { world = v } = ground (arith, e) in
      subst IsHeld (sym same) (
        IsHeld-Kept s v h (
          blob-Kept lo contract s.message b.size b.content s.world
            (h.message_live (ground (arith, e)))))

  -- No message is in progress where one ended.
  pub between :
      (s : Sender lo)
      → s.message_in_progress ≡ false
      → All (λ b. (heap s.world).bundles b ≢ none) s.bundles
      → IsHeld s
  between s out live = record {
    message_live = λ in_progress. ground (arith, out, in_progress);
    bundles_live = live;
  }

  ended :
      (s t : Sender lo)
      → t.message_in_progress ≡ false
      → t.bundles ≡ s.bundles
      → Kept lo contract s.world t.world
      → IsHeld s
      → IsHeld t
  ended s t out same keep h = between t out (
      subst (All (λ b. (heap t.world).bundles b ≢ none)) (sym same)
        (All-Keeps (heap s.world) (heap t.world) s.bundles keep h.bundles_live))

  end_message-IsHeld : (s t : Sender lo) → IsHeld s → end_message lo s ≡ done t → IsHeld t
  unfolding end_message
  end_message-IsHeld s t h e = go s.bundles refl
    where
      go : (bs : List Ptr) → s.bundles ≡ bs → IsHeld t
      go [] has_none =
          ended s t (ground (arith, has_none, e)) (ground (arith, has_none, e))
            (Kept-same lo contract s.world t.world (ap heap (ground (arith, has_none, e)))) h
      go (b ∷ bs) has_some = elim (Bool-cases s.bundle_in_progress) [
        | inl inside ↦
            let path = c_string (s.address_pattern ++ 0 ∷ []) in
            let same : t.world ≡ lo.bundle_add_message b path s.message s.world =
              ground (arith, has_some, inside, e) in
            ended s t (ground (arith, has_some, inside, e)) (ground (arith, has_some, inside, e))
              (subst (Kept lo contract s.world) (sym same) (
                bundle_add_message-Kept lo contract b path s.message s.world
                  (subst (All (λ b. (heap s.world).bundles b ≢ none)) has_some h.bundles_live).0))
              h
        | inr outside ↦
            ended s t (ground (arith, outside, e)) (ground (arith, outside, e))
              (Kept-same lo contract s.world t.world (ap heap (ground (arith, outside, e)))) h
      ]

  bundle_new-live :
      (tag : TimeTag) (w : lo.World)
      → let made = lo.bundle_new tag w in (heap made.0).bundles made.1 ≢ none
  bundle_new-live tag w =
      let made = lo.bundle_new tag w in
      is_some (
        at (ap (λ (g : Heap). g.bundles) (contract.bundle_new_heap tag w)) made.1
        ∙ update_self (heap w).bundles made.1 (some (record { tag = tag; elements = [] })))

  -- From the new bundle on.
  open_bundle-Kept :
      (tag : TimeTag) (s : Sender lo)
      → IsHeld s
      → Kept lo contract (lo.bundle_new tag s.world).0 (open_bundle lo tag s).world
  unfolding open_bundle
  open_bundle-Kept tag s h = go s.bundles refl
    where
      go :
          (bs : List Ptr)
          → s.bundles ≡ bs
          → Kept lo contract (lo.bundle_new tag s.world).0 (open_bundle lo tag s).world
      go [] has_none = Kept-same lo contract _ _ (ap heap (ground (arith, has_none)))
      go (b ∷ bs) has_some =
          let made = lo.bundle_new tag s.world in
          let same : (open_bundle lo tag s).world ≡ lo.bundle_add_bundle b made.1 made.0 =
            ground (arith, has_some) in
          subst (Kept lo contract made.0) (sym same) (
            bundle_add_bundle-Kept lo contract b made.1 made.0 (
              (bundle_new-Kept lo contract tag s.world).1 b
                (subst (All (λ b. (heap s.world).bundles b ≢ none)) has_some h.bundles_live).0))

  pub open_bundle-IsHeld :
      (tag : TimeTag) (s : Sender lo) → IsHeld s → IsHeld (open_bundle lo tag s)
  unfolding open_bundle
  open_bundle-IsHeld tag s h =
      let made = lo.bundle_new tag s.world in
      let v = (open_bundle lo tag s).world in
      let rest = open_bundle-Kept tag s h in
      let keep =
        Keeps-trans (heap s.world) (heap made.0) (heap v) (bundle_new-Kept lo contract tag s.world)
          rest in
      record {
        message_live = λ e. keep.0 s.message (h.message_live e);
        bundles_live = (
          rest.1 made.1 (bundle_new-live tag s.world),
          All-Keeps (heap s.world) (heap v) s.bundles keep h.bundles_live,
        );
      }

  end_bundle-IsHeld : (s t : Sender lo) → IsHeld s → end_bundle lo s ≡ done t → IsHeld t
  unfolding end_bundle
  end_bundle-IsHeld s t h e = go s.bundles refl
    where
      go : (bs : List Ptr) → s.bundles ≡ bs → IsHeld t
      go [] shape =
          let same : t ≡ record s { bundle_in_progress = false } = ground (arith, shape, e) in
          subst IsHeld (sym same)
            (record { message_live = h.message_live; bundles_live = h.bundles_live })
      go (b ∷ []) shape =
          let same : t ≡ record s { bundle_in_progress = false } = ground (arith, shape, e) in
          subst IsHeld (sym same)
            (record { message_live = h.message_live; bundles_live = h.bundles_live })
      go (b ∷ c ∷ bs) shape =
          let same : t ≡ record s { bundles = c ∷ bs } = ground (arith, shape, e) in
          subst IsHeld (sym same) (record {
            message_live = h.message_live;
            bundles_live =
                (subst (All (λ b. (heap s.world).bundles b ≢ none)) shape h.bundles_live).1;
          })

  pub stream-IsHeld :
      (x : Streamed) (s t : Sender lo) → IsHeld s → stream lo x s ≡ done t → IsHeld t
  unfolding stream add_bool add_char add_nil add_infinitum add_int32 add_int64 add_float add_double
      add_string add_midi_message add_timetag begin_bundle
  stream-IsHeld (Streamed.begin_message p) s t h e = begin_message-IsHeld p s t h e
  stream-IsHeld Streamed.end_message s t h e = end_message-IsHeld s t h e
  stream-IsHeld (Streamed.begin_bundle tag) s t h e =
      let same : t ≡ open_bundle lo tag s = ground (arith, e) in
      subst IsHeld (sym same) (open_bundle-IsHeld tag s h)
  stream-IsHeld Streamed.end_bundle s t h e = end_bundle-IsHeld s t h e
  stream-IsHeld (Streamed.symbol y) s t h e = add_symbol-IsHeld y s t h e
  stream-IsHeld (Streamed.blob b) s t h e = add_blob-IsHeld b s t h e
  stream-IsHeld x s t h e = add_argument-IsHeld _ s t h e
