-- ===== src/Received/Match.antt =====
-- Matching a message by its address and types.
use lopack.Prelude.{true, List, ◌≡◌, ◌↔◌, sym, ap₂, ◌∙◌, arith, map, ◌&&◌}
use lopack.Prelude.Text.{Text, text_eq, text_eq_refl, text_eq→eq}
use lopack.Liblo.{Arg}
use lopack.Received.Reader.{Reader}
use lopack.Received.Read.{ReceivedMessage, check_address_and_types}
use lopack.Received.Contract.{tag, Contents}

module _ {W : Type 0} (lo : Reader W) where
  -- On a message that holds `args`, checkAddressAndTypes is true exactly when the address is the
  -- message's address pattern and the type string spells the types of `args`, in order.
  pub check_address_and_types_iff :
      (msg : ReceivedMessage) (w : W) (args : List Arg) (address tags : Text)
      → Contents lo msg.message w args
      → (check_address_and_types lo address tags msg w ≡ true)
        ↔ ((address ≡ msg.address_pattern) × (tags ≡ map tag args))
  unfolding check_address_and_types
  check_address_and_types_iff msg w args address tags c = (
    λ h. (
      text_eq→eq address msg.address_pattern (ground arith),
      text_eq→eq tags (lo.message_get_types msg.message w) (ground arith) ∙ c.types,
    ),
    λ (same, spelt).
        ap₂ (λ a b. text_eq a msg.address_pattern && text_eq b (lo.message_get_types msg.message w))
          same (spelt ∙ sym c.types)
        ∙ ap₂ ◌&&◌ (text_eq_refl msg.address_pattern)
            (text_eq_refl (lo.message_get_types msg.message w)),
  )
