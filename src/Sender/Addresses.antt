-- ===== src/Sender/Addresses.antt =====
-- liblo's addresses, and the calls of a sender that make and free none.
use lopack.Prelude.{List, [], ◌∷◌, ◌++◌, ◌≡◌, refl, arith}
use lopack.Prelude.Text.{c_string}
use lopack.Types.{TimeTag}
use lopack.Outcome.{done}
use lopack.Liblo.{Liblo, Ptr}
use lopack.Liblo.Addresses.{Addresses}
use lopack.Sender.State.{Sender, front, clear, send, print}
use lopack.Sender.Build.{
  open_bundle, begin_message, add_bool, add_char, add_nil, add_infinitum, add_int32, add_int64,
  add_float, add_double, add_string, add_symbol, add_midi_message, add_timetag, add_blob,
  end_message, begin_bundle, end_bundle,
}
use lopack.Sender.Stream.{Streamed, stream}

module _ (lo : Liblo) (a : Addresses lo) where
  -- The sender's address and the live ones are what they were.
  abbrev pub Same : Sender lo → Sender lo → Type 0
  Same s t = (t.address ≡ s.address) × (a.live t.world ≡ a.live s.world)

  pub clear-Same : (s : Sender lo) → Same s (clear lo s)
  unfolding clear
  clear-Same s = go s.bundles refl
    where
      go : (bs : List Ptr) → s.bundles ≡ bs → Same s (clear lo s)
      go [] e = ground (arith, e, a.message_free s.message s.world)
      go (b ∷ bs) e = ground (arith, e, a.bundle_free_recursive (front b bs) s.world)

  end_message-Same : (s t : Sender lo) → end_message lo s ≡ done t → Same s t
  unfolding end_message
  end_message-Same s t h = go s.bundles refl
    where
      go : (bs : List Ptr) → s.bundles ≡ bs → Same s t
      go [] e = ground (arith, e, h)
      go (b ∷ bs) e = ground (
        arith,
        e,
        h,
        a.bundle_add_message b (c_string (s.address_pattern ++ 0 ∷ [])) s.message s.world,
      )

  pub open_bundle-live :
      (tag : TimeTag) (s : Sender lo) → a.live (open_bundle lo tag s).world ≡ a.live s.world
  unfolding open_bundle
  open_bundle-live tag s = go s.bundles refl
    where
      go : (bs : List Ptr) → s.bundles ≡ bs → a.live (open_bundle lo tag s).world ≡ a.live s.world
      go [] e = ground (arith, e, a.bundle_new tag s.world)
      go (b ∷ bs) e =
          let made = lo.bundle_new tag s.world in
          ground (arith, e, a.bundle_new tag s.world, a.bundle_add_bundle b made.1 made.0)

  pub stream-Same : (x : Streamed) (s t : Sender lo) → stream lo x s ≡ done t → Same s t
  unfolding stream begin_message add_bool add_char add_nil add_infinitum add_int32 add_int64
      add_float add_double add_string add_symbol add_midi_message add_timetag add_blob begin_bundle
      end_bundle
  stream-Same (Streamed.begin_message p) s t h = ground (arith, h, a.message_new s.world)
  stream-Same Streamed.end_message s t h = end_message-Same s t h
  stream-Same (Streamed.begin_bundle tag) s t h = ground (arith, h, open_bundle-live tag s)
  stream-Same (Streamed.blob b) s t h =
      let made = lo.blob_new b.size b.content s.world in
      ground (
        arith,
        h,
        a.blob_new b.size b.content s.world,
        a.message_add_blob s.message made.1 made.0,
        a.blob_free made.1 (lo.message_add_blob s.message made.1 made.0),
      )
  stream-Same x s t h = grind (arith, h, a.message_add)

  pub send-Same : (s t : Sender lo) → send lo s ≡ done t → Same s t
  unfolding send
  send-Same s t h = go s.bundles refl
    where
      go : (bs : List Ptr) → s.bundles ≡ bs → Same s t
      go [] e =
          let v = lo.send_message s.address (c_string s.address_pattern) s.message s.world in
          ground (
            arith,
            e,
            h,
            a.send_message s.address (c_string s.address_pattern) s.message s.world,
            clear-Same (record s { world = v }),
          )
      go (b ∷ bs) e =
          let v = lo.send_bundle s.address (front b bs) s.world in
          ground (
            arith,
            e,
            h,
            a.send_bundle s.address (front b bs) s.world,
            clear-Same (record s { world = v }),
          )

  pub print-Same : (s : Sender lo) → Same s (print lo s)
  unfolding print
  print-Same s = go s.bundles refl
    where
      go : (bs : List Ptr) → s.bundles ≡ bs → Same s (print lo s)
      go [] e = ground (arith, e, a.message_pp s.message s.world)
      go (b ∷ bs) e = ground (
        arith,
        e,
        a.bundle_pp b s.world,
        a.message_pp s.message s.world,
        a.message_pp s.message (lo.bundle_pp b s.world),
      )
