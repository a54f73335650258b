-- ===== src/Liblo/Contract.antt =====
-- What lopack relies on in liblo, as liblo's documentation describes it: new objects are distinct
-- from the live ones, an object that was added to a bundle is referred to and not copied, and a
-- send transmits the objects as they stand. Nothing is said of a call on a NULL or dead pointer.
use lopack.Prelude.{ℕ, List, [], ◌∷◌, ◌++◌, Option, none, some, ◌≡◌, ◌≢◌, length, if◌then◌else◌}
use lopack.Prelude.Text.{Text}
use lopack.Types.{TimeTag}
use lopack.Liblo.{Liblo}
use lopack.Liblo.Members.{has, Distinct}
use lopack.Liblo.Packets.{Packet, Holds}
use lopack.Liblo.Store.{
  Ptr, null, Arg, blob, message_ref, bundle_ref, Bundle, Element, Heap, Sent, update,
}

abbrev pub add_message : Ptr → List Arg → Heap → Heap
add_message m args h = record h { messages = update h.messages m (some args) }

abbrev pub drop_message : Ptr → Heap → Heap
drop_message m h = record h { messages = update h.messages m none }

abbrev pub add_bundle : Ptr → Bundle → Heap → Heap
add_bundle b c h = record h { bundles = update h.bundles b (some c) }

abbrev pub set_blob : Ptr → Option (List ℕ) → Heap → Heap
set_blob b c h = record h { blobs = update h.blobs b c }

abbrev pub with_element : Bundle → Element → Bundle
with_element c e = record c { elements = c.elements ++ e ∷ [] }

-- What is left where some objects were given back.
abbrev pub cleared {ℓ} : {A : Type ℓ} → (Ptr → Option A) → List Ptr → Ptr → Option A
cleared f ps q = if has q ps then none else f q

abbrev pub freed : List Ptr → List Ptr → Heap → Heap
freed ms bs h = record h { messages = cleared h.messages ms; bundles = cleared h.bundles bs }

pub record Contract (lo : Liblo) : Type 0 where
  pub heap : lo.World → Heap
  pub sent : lo.World → List Sent
  -- what a C function reads from `size` bytes at a pointer
  pub bytes : ℕ → List ℕ → List ℕ
  pub bytes_all : (content : List ℕ) → bytes (length content) content ≡ content
  -- the functions of addresses, and those that print, leave the other objects alone
  pub address_new_heap :
      (host port : Text) (w : lo.World) → heap (lo.address_new host port w).0 ≡ heap w
  pub address_free_heap : (p : Ptr) (w : lo.World) → p ≢ null → heap (lo.address_free p w) ≡ heap w
  pub message_pp_heap : (m : Ptr) (w : lo.World) → m ≢ null → heap (lo.message_pp m w) ≡ heap w
  pub bundle_pp_heap :
      (b : Ptr) (w : lo.World) → (heap w).bundles b ≢ none → heap (lo.bundle_pp b w) ≡ heap w
  pub message_new_fresh :
      (w : lo.World)
      → ((lo.message_new w).1 ≢ null) × ((heap w).messages (lo.message_new w).1 ≡ none)
  pub message_new_heap :
      (w : lo.World) → heap (lo.message_new w).0 ≡ add_message (lo.message_new w).1 [] (heap w)
  pub message_new_sent : (w : lo.World) → sent (lo.message_new w).0 ≡ sent w
  pub message_add_heap :
      (m : Ptr) (a : Arg) (w : lo.World) (args : List Arg)
      → (heap w).messages m ≡ some args
      → heap (lo.message_add m a w) ≡ add_message m (args ++ a ∷ []) (heap w)
  pub message_add_sent : (m : Ptr) (a : Arg) (w : lo.World) → sent (lo.message_add m a w) ≡ sent w
  pub message_free_heap :
      (m : Ptr) (w : lo.World) → m ≢ null → heap (lo.message_free m w) ≡ drop_message m (heap w)
  pub message_free_sent : (m : Ptr) (w : lo.World) → sent (lo.message_free m w) ≡ sent w
  pub blob_new_fresh :
      (size : ℕ) (content : List ℕ) (w : lo.World)
      → (heap w).blobs (lo.blob_new size content w).1 ≡ none
  pub blob_new_heap :
      (size : ℕ) (content : List ℕ) (w : lo.World)
      → heap (lo.blob_new size content w).0
        ≡ set_blob (lo.blob_new size content w).1 (some (bytes size content)) (heap w)
  pub blob_new_sent :
      (size : ℕ) (content : List ℕ) (w : lo.World) → sent (lo.blob_new size content w).0 ≡ sent w
  pub message_add_blob_heap :
      (m b : Ptr) (w : lo.World) (args : List Arg) (content : List ℕ)
      → (heap w).messages m ≡ some args
      → (heap w).blobs b ≡ some content
      → heap (lo.message_add_blob m b w) ≡ add_message m (args ++ blob content ∷ []) (heap w)
  pub message_add_blob_sent : (m b : Ptr) (w : lo.World) → sent (lo.message_add_blob m b w) ≡ sent w
  pub blob_free_heap : (b : Ptr) (w : lo.World) → heap (lo.blob_free b w) ≡ set_blob b none (heap w)
  pub blob_free_sent : (b : Ptr) (w : lo.World) → sent (lo.blob_free b w) ≡ sent w
  pub bundle_new_fresh :
      (t : TimeTag) (w : lo.World)
      → ((lo.bundle_new t w).1 ≢ null) × ((heap w).bundles (lo.bundle_new t w).1 ≡ none)
  pub bundle_new_heap :
      (t : TimeTag) (w : lo.World)
      → heap (lo.bundle_new t w).0
        ≡ add_bundle (lo.bundle_new t w).1 (record { tag = t; elements = [] }) (heap w)
  pub bundle_new_sent : (t : TimeTag) (w : lo.World) → sent (lo.bundle_new t w).0 ≡ sent w
  pub bundle_add_message_heap :
      (b : Ptr) (path : Text) (m : Ptr) (w : lo.World) (c : Bundle)
      → (heap w).bundles b ≡ some c
      → heap (lo.bundle_add_message b path m w)
        ≡ add_bundle b (with_element c (message_ref path m)) (heap w)
  pub bundle_add_message_sent :
      (b : Ptr) (path : Text) (m : Ptr) (w : lo.World)
      → sent (lo.bundle_add_message b path m w) ≡ sent w
  pub bundle_add_bundle_heap :
      (b child : Ptr) (w : lo.World) (c : Bundle)
      → (heap w).bundles b ≡ some c
      → heap (lo.bundle_add_bundle b child w)
        ≡ add_bundle b (with_element c (bundle_ref child)) (heap w)
  pub bundle_add_bundle_sent :
      (b child : Ptr) (w : lo.World) → sent (lo.bundle_add_bundle b child w) ≡ sent w
  -- a tree of objects is given back, and nothing else
  pub bundle_free_recursive_heap :
      (b : Ptr) (w : lo.World) (p : Packet) (ms bs : List Ptr)
      → Holds (heap w) (bundle_ref b) p ms bs
      → Distinct ms
      → Distinct bs
      → heap (lo.bundle_free_recursive b w) ≡ freed ms bs (heap w)
  pub bundle_free_recursive_sent :
      (b : Ptr) (w : lo.World) → sent (lo.bundle_free_recursive b w) ≡ sent w
  pub send_message_sent :
      (a : Ptr) (path : Text) (m : Ptr) (w : lo.World)
      → sent (lo.send_message a path m w)
        ≡ sent w ++ record { to = a; root = message_ref path m; heap = heap w } ∷ []
  pub send_message_heap :
      (a : Ptr) (path : Text) (m : Ptr) (w : lo.World) → heap (lo.send_message a path m w) ≡ heap w
  pub send_bundle_sent :
      (a b : Ptr) (w : lo.World)
      → sent (lo.send_bundle a b w)
        ≡ sent w ++ record { to = a; root = bundle_ref b; heap = heap w } ∷ []
  pub send_bundle_heap : (a b : Ptr) (w : lo.World) → heap (lo.send_bundle a b w) ≡ heap w
