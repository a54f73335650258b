-- ===== src/Liblo/Reference/Live.antt =====
-- The addresses of the reference library that are live.
use lopack.Prelude.{
  ℕ, suc, Bool, true, false, Option, none, some, ◌≡◌, ◌≢◌, refl, ap, ◌∙◌, arith, fun_ext,
  Bool-cases, inl, inr, Option-cases, ◌==◌,
}
use lopack.Prelude.Text.{Text}
use lopack.Liblo.Store.{Ptr, null, Arg, blob, Element, update}
use lopack.Liblo.Addresses.{Addresses}
use lopack.Liblo.Reference.State.{World}
use lopack.Liblo.Reference.Free.{free_bundle, free_bundle_addresses}
use lopack.Liblo.Reference.Laws.{reference, add_argument, add_element, add_blob_argument}
use lopack.Liblo.Reference.Table.{Table, lookup, lookup-fresh, lookup-allocate, lookup-erase}

abbrev pub is_some : {A : Type 0} → Option A → Bool
is_some none = false
is_some (some a) = true

abbrev pub live : World → Ptr → Bool
live w p = is_some (lookup w.addresses p)

pub is_some-update :
    {A : Type 0} (f : Ptr → Option A) (p : Ptr) (o : Option A)
    → (λ q. is_some (update f p o q)) ≡ update (λ q. is_some (f q)) p (is_some o)
is_some-update f p o =
    fun_ext λ q. elim (Bool-cases (q == p)) [ inl e ↦ rw e refl | inr e ↦ rw e refl ]

pub add_argument_addresses :
    (m : Ptr) (a : Arg) (w : World) → (add_argument m a w).addresses ≡ w.addresses
add_argument_addresses m a w = elim (Option-cases (lookup w.messages m)) [
  | inl e ↦ rw (e, add_argument) refl
  | inr (args, e) ↦ rw (e, add_argument) refl
]

pub add_element_addresses :
    (b : Ptr) (x : Element) (w : World) → (add_element b x w).addresses ≡ w.addresses
add_element_addresses b x w = elim (Option-cases (lookup w.bundles b)) [
  | inl e ↦ rw (e, add_element) refl
  | inr (c, e) ↦ rw (e, add_element) refl
]

pub add_blob_argument_addresses :
    (m b : Ptr) (w : World) → (add_blob_argument m b w).addresses ≡ w.addresses
add_blob_argument_addresses m b w = elim (Option-cases (lookup w.blobs b)) [
  | inl e ↦ rw (e, add_blob_argument) refl
  | inr (content, e) ↦ rw (e, add_blob_argument) (add_argument_addresses m (blob content) w)
]

-- Where the addresses are the same, the same ones are live.
pub kept : (v w : World) → v.addresses ≡ w.addresses → live v ≡ live w
kept v w e = ap {B = Ptr → Bool} (λ (t : Table (Text × Text)) p. is_some (lookup t p)) e

pub suc-ne-null : (n : ℕ) → suc n ≢ null
suc-ne-null n e = ground (arith, e)

abbrev pub reference_addresses : Addresses reference
reference_addresses = record {
  live = live;
  new_failed = λ host port w e. absurd (suc-ne-null w.addresses.used e);
  new_fresh = λ host port w _. rw (lookup-fresh w.addresses) refl;
  new_live = λ host port w _.
      ap (λ f q. is_some (f q)) (lookup-allocate (host, port) w.addresses)
      ∙ is_some-update (lookup w.addresses) (suc w.addresses.used) (some (host, port));
  free_live = λ p w _.
      ap (λ f q. is_some (f q)) (lookup-erase p w.addresses)
      ∙ is_some-update (lookup w.addresses) p none;
  message_new = λ w. refl;
  message_free = λ m w. refl;
  message_add = λ m a w. kept (add_argument m a w) w (add_argument_addresses m a w);
  blob_new = λ size content w. refl;
  message_add_blob = λ m b w. kept (add_blob_argument m b w) w (add_blob_argument_addresses m b w);
  blob_free = λ b w. refl;
  bundle_new = λ t w. refl;
  bundle_add_message = λ b path m w.
      kept (add_element b (Element.message_ref path m) w) w
        (add_element_addresses b (Element.message_ref path m) w);
  bundle_add_bundle = λ b child w.
      kept (add_element b (Element.bundle_ref child) w) w
        (add_element_addresses b (Element.bundle_ref child) w);
  bundle_free_recursive = λ b w.
      kept (free_bundle (suc w.bundles.used) b w) w
        (free_bundle_addresses (suc w.bundles.used) b w);
  send_message = λ p path m w. refl;
  send_bundle = λ p b w. refl;
  message_pp = λ m w. refl;
  bundle_pp = λ b w. refl;
}
