-- ===== src/Liblo/Reference/Laws.antt =====
-- The reference library's functions, and the proof that they keep the contract.
use lopack.Prelude.{
  ℕ, zero, suc, List, [], ◌∷◌, ◌++◌, none, some, ◌≡◌, refl, ap, length, arith, Option-cases, inl,
  inr,
}
use lopack.Prelude.Text.{Text}
use lopack.Liblo.{Liblo, Ptr, Arg, blob, Element, message_ref, bundle_ref, Bundle}
use lopack.Liblo.Contract.{Contract, add_message, add_bundle, with_element}
use lopack.Liblo.Reference.State.{World, heap_of}
use lopack.Liblo.Reference.Free.{free_bundle, free_bundle_heap, free_bundle_sent}
use lopack.Liblo.Reference.Table.{
  lookup, allocate, put, lookup-fresh, lookup-allocate, lookup-put, lookup-erase,
}

abbrev take : ℕ → List ℕ → List ℕ
take zero xs = []
take (suc n) [] = []
take (suc n) (x ∷ xs) = x ∷ take n xs

pub take_all : (xs : List ℕ) → take (length xs) xs ≡ xs
take_all [] = refl
take_all (x ∷ xs) = ap (◌∷◌ x) (take_all xs)

-- The entry of an address that is live.
abbrev address_of : Ptr → World → Text × Text
address_of p w = elim (lookup w.addresses p) [ none ↦ ([], []) | some entry ↦ entry ]

abbrev pub add_argument : Ptr → Arg → World → World
add_argument m a w = elim (lookup w.messages m) [
  | none ↦ w
  | some args ↦ record w { messages = put m (some (args ++ a ∷ [])) w.messages }
]

abbrev pub add_element : Ptr → Element → World → World
add_element b e w = elim (lookup w.bundles b) [
  | none ↦ w
  | some c ↦ record w { bundles = put b (some (with_element c e)) w.bundles }
]

abbrev transmit : Ptr → Element → World → World
transmit a e w = record w { sent = w.sent ++ record { to = a; root = e; heap = heap_of w } ∷ [] }

abbrev pub add_blob_argument : Ptr → Ptr → World → World
add_blob_argument m b w = elim (lookup w.blobs b) [
  | none ↦ w
  | some content ↦ add_argument m (blob content) w
]

abbrev pub reference : Liblo
reference = record {
  World = World;
  address_new = λ host port w.
      (record w { addresses = allocate (host, port) w.addresses }, suc w.addresses.used);
  address_free = λ p w. record w { addresses = put p none w.addresses };
  address_get_hostname = λ p w. (address_of p w).0;
  address_get_port = λ p w. (address_of p w).1;
  address_get_url = λ p w. (address_of p w).0 ++ b':' ∷ (address_of p w).1;
  message_new = λ w. (record w { messages = allocate [] w.messages }, suc w.messages.used);
  message_free = λ m w. record w { messages = put m none w.messages };
  message_add = add_argument;
  blob_new = λ size content w.
      (record w { blobs = allocate (take size content) w.blobs }, suc w.blobs.used);
  message_add_blob = add_blob_argument;
  blob_free = λ b w. record w { blobs = put b none w.blobs };
  bundle_new = λ t w. (
    record w { bundles = allocate (record { tag = t; elements = [] }) w.bundles },
    suc w.bundles.used,
  );
  bundle_add_message = λ b path m. add_element b (message_ref path m);
  bundle_add_bundle = λ b child. add_element b (bundle_ref child);
  bundle_free_recursive = λ b w. free_bundle (suc w.bundles.used) b w;
  send_message = λ a path m. transmit a (message_ref path m);
  send_bundle = λ a b. transmit a (bundle_ref b);
  message_pp = λ m w. w;
  bundle_pp = λ b w. w;
}

pub add_argument_heap :
    (m : Ptr) (a : Arg) (w : World) (args : List Arg)
    → lookup w.messages m ≡ some args
    → heap_of (add_argument m a w) ≡ add_message m (args ++ a ∷ []) (heap_of w)
add_argument_heap m a w args at =
    rw (at, add_argument)
      (ap (λ f. record (heap_of w) { messages = f })
        (lookup-put m args (args ++ a ∷ []) w.messages at))

pub add_argument_sent : (m : Ptr) (a : Arg) (w : World) → (add_argument m a w).sent ≡ w.sent
add_argument_sent m a w = elim (Option-cases (lookup w.messages m)) [
  | inl e ↦ rw (e, add_argument) refl
  | inr (args, e) ↦ rw (e, add_argument) refl
]

pub add_element_heap :
    (b : Ptr) (x : Element) (w : World) (c : Bundle)
    → lookup w.bundles b ≡ some c
    → heap_of (add_element b x w) ≡ add_bundle b (with_element c x) (heap_of w)
add_element_heap b x w c at =
    rw (at, add_element)
      (ap (λ f. record (heap_of w) { bundles = f })
        (lookup-put b c (with_element c x) w.bundles at))

pub add_element_sent : (b : Ptr) (x : Element) (w : World) → (add_element b x w).sent ≡ w.sent
add_element_sent b x w = elim (Option-cases (lookup w.bundles b)) [
  | inl e ↦ rw (e, add_element) refl
  | inr (c, e) ↦ rw (e, add_element) refl
]

pub add_blob_argument_sent : (m b : Ptr) (w : World) → (add_blob_argument m b w).sent ≡ w.sent
add_blob_argument_sent m b w = elim (Option-cases (lookup w.blobs b)) [
  | inl e ↦ rw (e, add_blob_argument) refl
  | inr (content, e) ↦ rw (e, add_blob_argument) (add_argument_sent m (blob content) w)
]

abbrev pub reference_contract : Contract reference
reference_contract = record {
  heap = heap_of;
  sent = λ w. w.sent;
  bytes = take;
  bytes_all = take_all;
  address_new_heap = λ host port w. refl;
  address_free_heap = λ p w _. refl;
  message_pp_heap = λ m w _. refl;
  bundle_pp_heap = λ b w _. refl;
  message_new_fresh = λ w. (omega arith, lookup-fresh w.messages);
  message_new_heap =
      λ w. ap (λ f. record (heap_of w) { messages = f }) (lookup-allocate [] w.messages);
  message_new_sent = λ w. refl;
  message_add_heap = add_argument_heap;
  message_add_sent = add_argument_sent;
  message_free_heap =
      λ m w _. ap (λ f. record (heap_of w) { messages = f }) (lookup-erase m w.messages);
  message_free_sent = λ m w. refl;
  blob_new_fresh = λ size content w. lookup-fresh w.blobs;
  blob_new_heap = λ size content w.
      ap (λ f. record (heap_of w) { blobs = f }) (lookup-allocate (take size content) w.blobs);
  blob_new_sent = λ size content w. refl;
  message_add_blob_heap = λ m b w args content at held.
      rw (held, add_blob_argument) (add_argument_heap m (blob content) w args at);
  message_add_blob_sent = add_blob_argument_sent;
  blob_free_heap = λ b w. ap (λ f. record (heap_of w) { blobs = f }) (lookup-erase b w.blobs);
  blob_free_sent = λ b w. refl;
  bundle_new_fresh = λ t w. (omega arith, lookup-fresh w.bundles);
  bundle_new_heap = λ t w.
      ap (λ f. record (heap_of w) { bundles = f })
        (lookup-allocate (record { tag = t; elements = [] }) w.bundles);
  bundle_new_sent = λ t w. refl;
  bundle_add_message_heap = λ b path m. add_element_heap b (message_ref path m);
  bundle_add_message_sent = λ b path m. add_element_sent b (message_ref path m);
  bundle_add_bundle_heap = λ b child. add_element_heap b (bundle_ref child);
  bundle_add_bundle_sent = λ b child. add_element_sent b (bundle_ref child);
  bundle_free_recursive_heap = free_bundle_heap;
  bundle_free_recursive_sent = λ b w. free_bundle_sent (suc w.bundles.used) b w;
  send_message_sent = λ a path m w. refl;
  send_message_heap = λ a path m w. refl;
  send_bundle_sent = λ a b w. refl;
  send_bundle_heap = λ a b w. refl;
}
