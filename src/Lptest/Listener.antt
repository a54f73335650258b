-- ===== src/Lptest/Listener.antt =====
-- That TestReceiver::process does not throw.
use lopack.Prelude.{
  ℕ, zero, suc, Bool, ◌||◌, List, [], ◌∷◌, ◌++◌, some, ◌≡◌, refl, arith, length, get_elem?, ◌+◌,
  ◌≤◌, ◌<◌, inl, inr, Bool-cases,
}
use lopack.Prelude.Text.{codes, text_eq}
use lopack.Outcome.{returned}
use lopack.Liblo.{Arg}
use lopack.Received.Print.{print_arg}
use lopack.Received.Reader.{Reader}
use lopack.Received.Read.{
  ReceivedMessage, MessageSource, check_address_and_types, type_tag, num_args, arg,
}
use lopack.Received.Contract.{Contents, arg-Contents}
use lopack.Received.Match.{check_address_and_types_iff}
use lopack.Lptest.Programs.{
  Shown, parse_items, arg_line, received_line, parse_all, print_args, process,
}
use lopack.Lptest.Parsing.{all_shown-Shows, parse_items-Shows, HasNulArg}

elem_below :
    (args : List Arg) (at : ℕ) → at < length args → (a : Arg) × (get_elem? args at ≡ some a)
elem_below [] at below = elim below [ ]
elem_below (a ∷ args) zero below = (a, refl)
elem_below (a ∷ args) (suc at) below = elem_below args at (omega arith)

module _ {W : Type 0} (lo : Reader W) (msg : ReceivedMessage) (args : List Arg)
    (keeps : (k : ℕ) (a : lo.LoArg) (v : W)
      → Contents lo msg.message v args
      → Contents lo msg.message (lo.arg_pp k a v) args) where
  print_step :
      (left at : ℕ) (v u : W) (x : lo.LoArg) (out : List Shown)
      → arg lo at msg v ≡ returned x
      → print_args lo left (suc at) msg (lo.arg_pp (type_tag lo at msg v) x v) ≡ returned (out, u)
      → print_args lo (suc left) at msg v ≡ returned (arg_line lo at msg v ++ out, u)
  unfolding print_args print_arg
  print_step left at v u x out reads runs = rw (print_args, print_arg, reads, runs) refl

  print_args-returned :
      (left at : ℕ) (v : W)
      → Contents lo msg.message v args
      → at + left ≤ length args
      → (out : List Shown) × (u : W) × (print_args lo left at msg v ≡ returned (out, u))
  unfolding print_args print_arg
  print_args-returned zero at v c below = ([], v, refl)
  print_args-returned (suc left) at v c below =
      let (a, got) = elem_below args at (omega arith) in
      let (x, reads, holds) = arg-Contents lo msg v args at a c got in
      let (out, u, runs) =
        print_args-returned left (suc at) (lo.arg_pp (type_tag lo at msg v) x v) (keeps _ x v c)
          (omega arith) in
      (arg_line lo at msg v ++ out, u, print_step left at v u x out reads runs)

  -- TestReceiver::process never throws, where printing an argument leaves the message as it is and a
  -- blob at the place that is parsed as one has a NUL. It sets `done` exactly on the address `/quit`
  -- and leaves it otherwise.
  pub process-returned :
      (done : Bool) (source : MessageSource) (w : W)
      → Contents lo msg.message w args
      → ((a : Arg) → get_elem? args 13 ≡ some a → HasNulArg a)
      → (out : List Shown) × (v : W) × (process lo done msg source w
          ≡ returned (out, text_eq msg.address_pattern (codes "/quit") || done, v))
  unfolding process parse_all num_args
  process-returned done source w c nul =
      elim (Bool-cases (text_eq msg.address_pattern (codes "/quit"))) [
        | inl quit ↦ (received_line lo msg source w, w, rw quit refl)
        | inr go ↦
            elim (Bool-cases
              (check_address_and_types lo (codes "/test3") (codes "TFcNIihfdsSmtb") msg w)) [
                | inl match ↦
                    let (same, spelt) =
                      (check_address_and_types_iff lo msg w args (codes "/test3")
                          (codes "TFcNIihfdsSmtb") c).0
                        match in
                    let (out, shows) =
                      all_shown-Shows (parse_items lo msg w)
                        (parse_items-Shows lo msg w args c spelt nul) in
                    (received_line lo msg source w ++ out, w, rw (go, match, shows) refl)
                | inr other ↦
                    let (out, v, runs) =
                      print_args-returned (num_args lo msg w) 0 w c (rw c.count (omega arith)) in
                    (received_line lo msg source w ++ out, v, rw (go, other, runs) refl)
              ]
      ]
