-- ===== src/Liblo/Kept.antt =====
-- What the calls of liblo leave live.
use lopack.Prelude.{
  ℕ, List, [], ◌∷◌, ◌++◌, Option, none, some, ◌≡◌, ◌≢◌, sym, ap, subst, ◌∙◌, arith, Option-cases,
  inl, inr, All,
}
use lopack.Prelude.Text.{Text}
use lopack.Types.{TimeTag}
use lopack.Liblo.{Liblo}
use lopack.Liblo.Store.{Ptr, Arg, Heap, update}
use lopack.Liblo.Updates.{update_self}
use lopack.Liblo.Contract.{Contract}

update-live :
    {A : Type 0} (f : Ptr → Option A) (p q : Ptr) (a : A)
    → f q ≢ none
    → update f p (some a) q ≢ none
update-live f p q a h = ground (arith, h)

-- The messages and bundles that were live still are.
abbrev pub Keeps : Heap → Heap → Type 0
Keeps h k =
    ((m : Ptr) → h.messages m ≢ none → k.messages m ≢ none)
    × ((b : Ptr) → h.bundles b ≢ none → k.bundles b ≢ none)

pub Keeps-trans : (h k l : Heap) → Keeps h k → Keeps k l → Keeps h l
Keeps-trans h k l one two = (λ m x. two.0 m (one.0 m x), λ b x. two.1 b (one.1 b x))

pub All-Keeps :
    (h k : Heap) (bs : List Ptr)
    → Keeps h k
    → All (λ b. h.bundles b ≢ none) bs
    → All (λ b. k.bundles b ≢ none) bs
All-Keeps h k [] keep live = tt
All-Keeps h k (b ∷ bs) keep live = (keep.1 b live.0, All-Keeps h k bs keep live.1)

module _ (lo : Liblo) (contract : Contract lo) where
  open contract use {heap}

  -- From one state of liblo to another.
  abbrev pub Kept : lo.World → lo.World → Type 0
  Kept w v = Keeps (heap w) (heap v)

  pub Kept-same : (w v : lo.World) → heap v ≡ heap w → Kept w v
  Kept-same w v e = subst (Keeps (heap w)) (sym e) (λ m x. x, λ b x. x)

  pub message_new-Kept : (w : lo.World) → Kept w (lo.message_new w).0
  message_new-Kept w =
      subst (Keeps (heap w)) (sym (contract.message_new_heap w))
        (λ m x. update-live (heap w).messages (lo.message_new w).1 m [] x, λ b x. x)

  pub message_add-Kept :
      (m : Ptr) (a : Arg) (w : lo.World)
      → (heap w).messages m ≢ none
      → Kept w (lo.message_add m a w)
  message_add-Kept m a w live = elim (Option-cases ((heap w).messages m)) [
    | inl e ↦ absurd (live e)
    | inr (args, e) ↦
        subst (Keeps (heap w)) (sym (contract.message_add_heap m a w args e))
          (λ q x. update-live (heap w).messages m q (args ++ a ∷ []) x, λ b x. x)
  ]

  pub bundle_new-Kept : (tag : TimeTag) (w : lo.World) → Kept w (lo.bundle_new tag w).0
  bundle_new-Kept tag w =
      subst (Keeps (heap w)) (sym (contract.bundle_new_heap tag w))
        (λ m x. x, λ b x. update-live (heap w).bundles (lo.bundle_new tag w).1 b _ x)

  pub bundle_add_message-Kept :
      (b : Ptr) (path : Text) (m : Ptr) (w : lo.World)
      → (heap w).bundles b ≢ none
      → Kept w (lo.bundle_add_message b path m w)
  bundle_add_message-Kept b path m w live = elim (Option-cases ((heap w).bundles b)) [
    | inl e ↦ absurd (live e)
    | inr (c, e) ↦
        subst (Keeps (heap w)) (sym (contract.bundle_add_message_heap b path m w c e))
          (λ m x. x, λ q x. update-live (heap w).bundles b q _ x)
  ]

  pub bundle_add_bundle-Kept :
      (b child : Ptr) (w : lo.World)
      → (heap w).bundles b ≢ none
      → Kept w (lo.bundle_add_bundle b child w)
  bundle_add_bundle-Kept b child w live = elim (Option-cases ((heap w).bundles b)) [
    | inl e ↦ absurd (live e)
    | inr (c, e) ↦
        subst (Keeps (heap w)) (sym (contract.bundle_add_bundle_heap b child w c e))
          (λ m x. x, λ q x. update-live (heap w).bundles b q _ x)
  ]

  -- A blob is made, added to a live message and given back.
  pub blob-Kept :
      (m : Ptr) (size : ℕ) (content : List ℕ) (w : lo.World)
      → (heap w).messages m ≢ none
      → let made = lo.blob_new size content w in
        Kept w (lo.blob_free made.1 (lo.message_add_blob m made.1 made.0))
  blob-Kept m size content w live =
      let made = lo.blob_new size content w in
      let new = contract.blob_new_heap size content w in
      elim (Option-cases ((heap w).messages m)) [
        | inl e ↦ absurd (live e)
        | inr (args, e) ↦
            let put =
              contract.message_add_blob_heap m made.1 made.0 args (contract.bytes size content)
                (ap (λ (h : Heap). h.messages m) new ∙ e)
                (ap (λ (h : Heap). h.blobs made.1) new
                  ∙ update_self (heap w).blobs made.1 (some (contract.bytes size content))) in
            let v = lo.message_add_blob m made.1 made.0 in
            Keeps-trans (heap w) (heap made.0) (heap (lo.blob_free made.1 v))
              (subst (Keeps (heap w)) (sym new) (λ q x. x, λ b x. x))
              (Keeps-trans (heap made.0) (heap v) (heap (lo.blob_free made.1 v))
                (subst (Keeps (heap made.0)) (sym put)
                  (λ q x. update-live (heap made.0).messages m q _ x, λ b x. x))
                (subst (Keeps (heap v)) (sym (contract.blob_free_heap made.1 v))
                  (λ q x. x, λ b x. x)))
      ]
