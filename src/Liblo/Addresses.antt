-- ===== src/Liblo/Addresses.antt =====
-- What lopack relies on in liblo where it makes and frees addresses.
use lopack.Prelude.{ℕ, Bool, true, false, List, ◌≡◌, ◌≢◌}
use lopack.Prelude.Text.{Text}
use lopack.Types.{TimeTag}
use lopack.Liblo.{Liblo}
use lopack.Liblo.Store.{Ptr, null, Arg, update}

-- Which addresses are live: a new one was not, and one that is live is given back by freeing it.
-- Nothing is said of freeing one that is not live. The other functions make and free none.
pub record Addresses (lo : Liblo) : Type 0 where
  pub live : lo.World → Ptr → Bool
  pub new_failed :
      (host port : Text) (w : lo.World)
      → (lo.address_new host port w).1 ≡ null
      → live (lo.address_new host port w).0 ≡ live w
  pub new_fresh :
      (host port : Text) (w : lo.World)
      → (lo.address_new host port w).1 ≢ null
      → live w (lo.address_new host port w).1 ≡ false
  pub new_live :
      (host port : Text) (w : lo.World)
      → (lo.address_new host port w).1 ≢ null
      → live (lo.address_new host port w).0 ≡ update (live w) (lo.address_new host port w).1 true
  pub free_live :
      (p : Ptr) (w : lo.World)
      → live w p ≡ true
      → live (lo.address_free p w) ≡ update (live w) p false
  pub message_new : (w : lo.World) → live (lo.message_new w).0 ≡ live w
  pub message_free : (m : Ptr) (w : lo.World) → live (lo.message_free m w) ≡ live w
  pub message_add : (m : Ptr) (a : Arg) (w : lo.World) → live (lo.message_add m a w) ≡ live w
  pub blob_new :
      (size : ℕ) (content : List ℕ) (w : lo.World) → live (lo.blob_new size content w).0 ≡ live w
  pub message_add_blob : (m b : Ptr) (w : lo.World) → live (lo.message_add_blob m b w) ≡ live w
  pub blob_free : (b : Ptr) (w : lo.World) → live (lo.blob_free b w) ≡ live w
  pub bundle_new : (t : TimeTag) (w : lo.World) → live (lo.bundle_new t w).0 ≡ live w
  pub bundle_add_message :
      (b : Ptr) (path : Text) (m : Ptr) (w : lo.World)
      → live (lo.bundle_add_message b path m w) ≡ live w
  pub bundle_add_bundle :
      (b child : Ptr) (w : lo.World) → live (lo.bundle_add_bundle b child w) ≡ live w
  pub bundle_free_recursive :
      (b : Ptr) (w : lo.World) → live (lo.bundle_free_recursive b w) ≡ live w
  pub send_message :
      (p : Ptr) (path : Text) (m : Ptr) (w : lo.World) → live (lo.send_message p path m w) ≡ live w
  pub send_bundle : (p b : Ptr) (w : lo.World) → live (lo.send_bundle p b w) ≡ live w
  pub message_pp : (m : Ptr) (w : lo.World) → live (lo.message_pp m w) ≡ live w
  pub bundle_pp : (b : Ptr) (w : lo.World) → live (lo.bundle_pp b w) ≡ live w
