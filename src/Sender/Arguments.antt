-- ===== src/Sender/Arguments.antt =====
-- Streaming the arguments of a message fills the liblo message with them, in order.
use lopack.Prelude.{
  ℕ, Bool, true, List, [], ◌∷◌, ◌++◌, Option, none, some, ◌≡◌, refl, sym, ap, ◌∙◌, append_assoc,
  arith, append-nil, map, All, length,
}
use lopack.Prelude.Text.{Text, c_string-HasNoNul}
use lopack.Outcome.{done, and_then}
use lopack.Liblo.{Liblo, Ptr, Arg, Heap, update}
use lopack.Liblo.Updates.{update-update, update_self, update_same}
use lopack.Liblo.Contract.{Contract, add_message, set_blob}
use lopack.Sender.State.{Sender, is_set}
use lopack.Sender.Build.{
  add_bool, add_char, add_nil, add_infinitum, add_int32, add_int64, add_float, add_double,
  add_string, add_symbol, add_midi_message, add_timetag, add_blob,
}
use lopack.Sender.Stream.{stream}
use lopack.Sender.Script.{streamed, stream_all, IsCleanArg}

module _ (lo : Liblo) where
  -- A sender whose message `m` is in progress.
  abbrev pub writing : Ptr → Ptr → List Ptr → Text → Bool → lo.World → Sender lo
  writing a m bs pattern inside w = record {
    address = a;
    message = m;
    bundles = bs;
    address_pattern = pattern;
    message_in_progress = true;
    bundle_in_progress = inside;
    world = w;
  }

module _ (lo : Liblo) (contract : Contract lo) where
  open contract use {heap, sent}

  -- From world `w` to world `v` message `m` came to hold `args`.
  pub record Filled (m : Ptr) (args : List Arg) (w v : lo.World) : Type 0 where
    pub messages : (heap v).messages ≡ update (heap w).messages m (some args)
    pub bundles : (heap v).bundles ≡ (heap w).bundles
    pub blobs : (heap v).blobs ≡ (heap w).blobs
    pub sent_same : sent v ≡ sent w

  message_add-Filled :
      (m : Ptr) (a : Arg) (w : lo.World) (args : List Arg)
      → (heap w).messages m ≡ some args
      → Filled m (args ++ a ∷ []) w (lo.message_add m a w)
  message_add-Filled m a w args at = record {
    messages = ap (λ (h : Heap). h.messages) (contract.message_add_heap m a w args at);
    bundles = ap (λ (h : Heap). h.bundles) (contract.message_add_heap m a w args at);
    blobs = ap (λ (h : Heap). h.blobs) (contract.message_add_heap m a w args at);
    sent_same = contract.message_add_sent m a w;
  }

  add_blob-Filled :
      (m : Ptr) (content : List ℕ) (w : lo.World) (args : List Arg)
      → (heap w).messages m ≡ some args
      → let made = lo.blob_new (length content) content w in
        Filled m
          (args ++ Arg.blob content ∷ [])
          w
          (lo.blob_free made.1 (lo.message_add_blob m made.1 made.0))
  add_blob-Filled m content w args at = record {
    messages =
        ap (λ (h : Heap). h.messages) freed
        ∙ ap (λ (h : Heap). h.messages) added
        ∙ ap (λ (h : Heap). update h.messages m (some (args ++ Arg.blob content ∷ []))) new;
    bundles =
        ap (λ (h : Heap). h.bundles) freed
        ∙ ap (λ (h : Heap). h.bundles) added
        ∙ ap (λ (h : Heap). h.bundles) new;
    blobs =
        ap (λ (h : Heap). h.blobs) freed
        ∙ ap (λ (h : Heap). update h.blobs b none) added
        ∙ ap (λ (h : Heap). update h.blobs b none) new
        ∙ update-update (heap w).blobs b (some content) none
        ∙ sym (
            update_same (heap w).blobs b none (contract.blob_new_fresh (length content) content w));
    sent_same =
        contract.blob_free_sent _ _
        ∙ contract.message_add_blob_sent m b v
        ∙ contract.blob_new_sent (length content) content w;
  }
    where
      b : Ptr
      b = (lo.blob_new (length content) content w).1

      v : lo.World
      v = (lo.blob_new (length content) content w).0

      new : heap v ≡ set_blob b (some content) (heap w)
      new =
          contract.blob_new_heap (length content) content w
          ∙ ap (λ xs. set_blob b (some xs) (heap w)) (contract.bytes_all content)

      added :
          heap (lo.message_add_blob m b v) ≡ add_message m (args ++ Arg.blob content ∷ []) (heap v)
      added =
          contract.message_add_blob_heap m b v args content
            (ap (λ (h : Heap). h.messages m) new ∙ at)
            (ap (λ (h : Heap). h.blobs b) new ∙ update_self (heap w).blobs b (some content))

      freed :
          heap (lo.blob_free b (lo.message_add_blob m b v))
          ≡ set_blob b none (heap (lo.message_add_blob m b v))
      freed = contract.blob_free_heap b (lo.message_add_blob m b v)

  Filled-trans :
      (m : Ptr) (arg : Arg) (args todo : List Arg) {w v u : lo.World}
      → Filled m (args ++ arg ∷ []) w v
      → Filled m ((args ++ arg ∷ []) ++ todo) v u
      → Filled m (args ++ arg ∷ todo) w u
  Filled-trans m arg args todo {w} one all = record {
    messages =
        all.messages
        ∙ ap (λ f. update f m (some ((args ++ arg ∷ []) ++ todo))) one.messages
        ∙ update-update (heap w).messages m (some (args ++ arg ∷ [])) _
        ∙ ap (λ xs. update (heap w).messages m (some xs)) (append_assoc args (arg ∷ []) todo);
    bundles = all.bundles ∙ one.bundles;
    blobs = all.blobs ∙ one.blobs;
    sent_same = all.sent_same ∙ one.sent_same;
  }

  module _ (a m : Ptr) (bs : List Ptr) (pattern : Text) (inside : Bool) (w : lo.World) where
    -- One argument.
    stream_argument :
        (arg : Arg) (args : List Arg)
        → is_set m ≡ true
        → IsCleanArg arg
        → (heap w).messages m ≡ some args
        → (v : lo.World) × (stream lo (streamed arg) (writing lo a m bs pattern inside w)
            ≡ done (writing lo a m bs pattern inside v))
          × Filled m (args ++ arg ∷ []) w v
    unfolding stream streamed add_bool add_char add_nil add_infinitum add_int32 add_int64 add_float
        add_double add_string add_symbol add_midi_message add_timetag add_blob
    stream_argument (Arg.string v) args set clean at = (
      lo.message_add m (Arg.string v) w,
      rw (c_string-HasNoNul v clean, set) refl,
      message_add-Filled m (Arg.string v) w args at,
    )
    stream_argument (Arg.symbol v) args set clean at = (
      lo.message_add m (Arg.symbol v) w,
      rw (c_string-HasNoNul v clean, set) refl,
      message_add-Filled m (Arg.symbol v) w args at,
    )
    stream_argument (Arg.blob v) args set clean at =
        let made = lo.blob_new (length v) v w in
        (
          lo.blob_free made.1 (lo.message_add_blob m made.1 made.0),
          ground (arith, set),
          add_blob-Filled m v w args at,
        )
    stream_argument arg args set clean at =
        (lo.message_add m arg w, rw set refl, message_add-Filled m arg w args at)

  -- All of them.
  pub stream_arguments :
      (a m : Ptr) (bs : List Ptr) (pattern : Text) (inside : Bool) (w : lo.World)
      (todo args : List Arg)
      → is_set m ≡ true
      → All IsCleanArg todo
      → (heap w).messages m ≡ some args
      → (v : lo.World) × (stream_all lo (map streamed todo) (writing lo a m bs pattern inside w)
          ≡ done (writing lo a m bs pattern inside v))
        × Filled m (args ++ todo) w v
  unfolding stream_all
  stream_arguments a m bs pattern inside w [] args set clean at = (
    w,
    refl,
    record {
      messages =
          update_same (heap w).messages m (some (args ++ []))
            (at ∙ ap some (sym (append-nil args)));
      bundles = refl;
      blobs = refl;
      sent_same = refl;
    },
  )
  stream_arguments a m bs pattern inside w (arg ∷ todo) args set clean at =
      let (v, run, one) = stream_argument a m bs pattern inside w arg args set clean.0 at in
      let (u, rest, all) =
        stream_arguments a m bs pattern inside v todo (args ++ arg ∷ []) set clean.1 (
          ap (λ (f : Ptr → Option (List Arg)). f m) one.messages
          ∙ update_self (heap w).messages m (some (args ++ arg ∷ []))) in
      (
        u,
        ap (λ o. and_then o (stream_all lo (map streamed todo))) run ∙ rest,
        Filled-trans m arg args todo one all,
      )
