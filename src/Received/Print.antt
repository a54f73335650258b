-- ===== src/Received/Print.antt =====
-- The printing functions of ReceivedMessage and MessageSource. What goes to std::cout is the text
-- that a function returns; what liblo prints on its own is in liblo's state.
use lopack.Prelude.{
  ℕ, zero, suc, List, [], ◌∷◌, ◌++◌, none, some, ◌≡◌, refl, ap, ◌∙◌, arith, get_elem?, ◌+◌, ◌<◌,
  Option-cases, inl, inr, sym,
}
use lopack.Prelude.Text.{Text, codes}
use lopack.Outcome.{Result, returned, raised, undetermined, and_return}
use lopack.Received.Reader.{Reader}
use lopack.Received.Read.{
  ReceivedMessage, MessageSource, type_tag, num_args, arg, get_hostname, get_port,
}

module _ {W : Type 0} (lo : Reader W) where
  unfoldable pub print : ReceivedMessage → W → Text × W
  print msg w = (msg.address_pattern ++ codes " ", lo.message_pp msg.message w)

  unfoldable pub print_arg : ℕ → ReceivedMessage → W → Result W
  unfolding arg type_tag
  print_arg at msg w = and_return (arg lo at msg w) (λ a. lo.arg_pp (type_tag lo at msg w) a w)

  -- The loop of printAllArgs from index `at`, `left` times, over the array `argv`. An array that is
  -- shorter is read out of bounds.
  print_members : (left at : ℕ) → List lo.LoArg → ReceivedMessage → W → Result W
  unfolding type_tag
  print_members zero at argv msg w = returned w
  print_members (suc left) at argv msg w = elim (get_elem? argv at) [
    | none ↦ undetermined
    | some a ↦ print_members left (suc at) argv msg (lo.arg_pp (type_tag lo at msg w) a w)
  ]

  unfoldable pub print_all_args : ReceivedMessage → W → Result W
  unfolding print_members
  print_all_args msg w =
      print_members (lo.message_get_argc msg.message w) 0 (lo.message_get_argv msg.message w) msg w

  -- The line for a source.
  unfoldable pub print_source : MessageSource → W → Text
  unfolding get_hostname get_port
  print_source source w = get_hostname lo source w ++ codes " " ++ get_port lo source w ++ 10 ∷ []

  abbrev go_on : Result W → (W → Result W) → Result W
  go_on (returned v) next = next v
  go_on (raised e) next = raised e
  go_on undetermined next = undetermined

  -- printArg for each index from `at`, `left` of them.
  unfoldable pub print_each : (left at : ℕ) → ReceivedMessage → W → Result W
  unfolding print_arg
  print_each zero at msg w = returned w
  print_each (suc left) at msg w = go_on (print_arg at msg w) (print_each left (suc at) msg)

  print_arg-read :
      (at : ℕ) (msg : ReceivedMessage) (w : W) (a : lo.LoArg)
      → arg lo at msg w ≡ returned a
      → print_arg at msg w ≡ returned (lo.arg_pp (type_tag lo at msg w) a w)
  unfolding print_arg
  print_arg-read at msg w a e = ap (λ r. and_return r (λ b. lo.arg_pp (type_tag lo at msg w) b w)) e

  read_member :
      (at : ℕ) (msg : ReceivedMessage) (w : W) (a : lo.LoArg)
      → at < lo.message_get_argc msg.message w
      → get_elem? (lo.message_get_argv msg.message w) at ≡ some a
      → arg lo at msg w ≡ returned a
  unfolding arg num_args
  read_member at msg w a below e = ground (arith, below, e)

  print_each-step :
      (left at : ℕ) (msg : ReceivedMessage) (w : W) (r : Result W)
      → print_arg at msg w ≡ r
      → print_each (suc left) at msg w ≡ go_on r (print_each left (suc at) msg)
  unfolding print_each
  print_each-step left at msg w r e = ap (λ o. go_on o (print_each left (suc at) msg)) e

  print_arg-beyond :
      (at : ℕ) (msg : ReceivedMessage) (w : W)
      → at < lo.message_get_argc msg.message w
      → get_elem? (lo.message_get_argv msg.message w) at ≡ none
      → print_arg at msg w ≡ undetermined
  unfolding print_arg arg num_args
  print_arg-beyond at msg w below e = ground (arith, below, e)

  module _ (msg : ReceivedMessage)
      (leaves : (k : ℕ) (a : lo.LoArg) (w : W)
        → (lo.message_get_argc msg.message (lo.arg_pp k a w) ≡ lo.message_get_argc msg.message w)
          × (lo.message_get_argv msg.message (lo.arg_pp k a w)
              ≡ lo.message_get_argv msg.message w)) where
    print_members-each :
        (left at : ℕ) (w : W)
        → at + left ≡ lo.message_get_argc msg.message w
        → print_members left at (lo.message_get_argv msg.message w) msg w ≡ print_each left at msg w
    unfolding print_members print_each
    print_members-each zero at w count = refl
    print_members-each (suc left) at w count =
        elim (Option-cases (get_elem? (lo.message_get_argv msg.message w) at)) [
          | inl e ↦
              ap
                (λ o. elim o as (λ _. Result W) [
                  | none ↦ undetermined
                  | some a ↦
                      print_members left (suc at) (lo.message_get_argv msg.message w) msg
                        (lo.arg_pp (type_tag lo at msg w) a w)
                ])
                e
              ∙ sym (
                  print_each-step left at msg w undetermined
                    (print_arg-beyond at msg w (omega arith) e))
          | inr (a, e) ↦
              let v = lo.arg_pp (type_tag lo at msg w) a w in
              ap
                (λ o. elim o as (λ _. Result W) [
                  | none ↦ undetermined
                  | some b ↦
                      print_members left (suc at) (lo.message_get_argv msg.message w) msg
                        (lo.arg_pp (type_tag lo at msg w) b w)
                ])
                e
              ∙ ap (λ xs. print_members left (suc at) xs msg v)
                  (sym (leaves (type_tag lo at msg w) a w).1)
              ∙ print_members-each left (suc at) v
                  (omega (arith, count, (leaves (type_tag lo at msg w) a w).0))
              ∙ sym (
                  print_each-step left at msg w (returned v)
                    (print_arg-read at msg w a (read_member at msg w a (omega arith) e)))
        ]

    -- Where liblo leaves the message as it is when it prints an argument, printAllArgs ends as
    -- printArg of each index in turn ends, and with the same effect.
    pub print_all_args-each :
        (w : W) → print_all_args msg w ≡ print_each (num_args lo msg w) 0 msg w
    unfolding print_all_args num_args
    print_all_args-each w = print_members-each (lo.message_get_argc msg.message w) 0 w (omega arith)
