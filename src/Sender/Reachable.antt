-- ===== src/Sender/Reachable.antt =====
-- The liblo objects that a sender refers to are live, as long as it is not cleared in the middle of
-- building.
use lopack.Prelude.{
  ℕ, true, false, List, [], ◌∷◌, none, ◌==◌, ◌≡◌, ◌≢◌, refl, sym, subst, ◌∙◌, arith, Bool-cases,
  inl, inr, All, if◌then◌else◌,
}
use lopack.Prelude.Text.{Text, c_string}
use lopack.Prelude.Decimal.{decimal}
use lopack.Outcome.{done, undefined}
use lopack.Liblo.{Liblo, Ptr, null}
use lopack.Liblo.Contract.{Contract}
use lopack.Liblo.Kept.{All-Keeps, Kept-same}
use lopack.Sender.State.{Sender, is_set, free_address, make_sender, setup, clear, send, print}
use lopack.Sender.Build.{begin_bundle_now, immediate}
use lopack.Sender.Command.{Command, run}
use lopack.Sender.Exceptions.{run-thrown}
use lopack.Sender.Safety.{IsAllowed, Reach, made, returns, throws, Reach-IsSound, run-ne-undefined}
use lopack.Sender.Held.{IsHeld, IsHeld-Kept, between, open_bundle-IsHeld, stream-IsHeld}

module _ (lo : Liblo) (contract : Contract lo) where
  open contract use {heap}

  free_address-heap : (s : Sender lo) → heap (free_address lo s) ≡ heap s.world
  unfolding free_address
  free_address-heap s = elim (Bool-cases (s.address == null)) [
    | inl e ↦ rw e refl
    | inr e ↦ rw e (contract.address_free_heap s.address s.world (ground (arith, e)))
  ]

  setup-IsHeld :
      (host : Text) (port : ℕ) (s : Sender lo)
      → IsHeld lo contract s
      → IsHeld lo contract (setup lo host port s)
  unfolding setup
  setup-IsHeld host port s h =
      let v = (setup lo host port s).world in
      let keep = Kept-same lo contract s.world v (
        contract.address_new_heap (c_string host) (c_string (decimal port)) (free_address lo s)
        ∙ free_address-heap s) in
      record {
        message_live = λ e. keep.0 s.message (h.message_live e);
        bundles_live = All-Keeps (heap s.world) (heap v) s.bundles keep h.bundles_live;
      }

  -- Printing the message, if it is not NULL.
  print_message-heap :
      (m : Ptr) (w : lo.World) → heap (if is_set m then lo.message_pp m w else w) ≡ heap w
  print_message-heap m w = elim (Bool-cases (m == null)) [
    | inl e ↦ rw e refl
    | inr e ↦ rw e (contract.message_pp_heap m w (ground (arith, e)))
  ]

  print-heap : (s : Sender lo) → IsHeld lo contract s → heap (print lo s).world ≡ heap s.world
  unfolding print
  print-heap s h = go s.bundles refl
    where
      go : (bs : List Ptr) → s.bundles ≡ bs → heap (print lo s).world ≡ heap s.world
      go [] shape = rw shape (print_message-heap s.message s.world)
      go (b ∷ bs) shape = rw shape (
          print_message-heap s.message (lo.bundle_pp b s.world)
          ∙ contract.bundle_pp_heap b s.world
              (subst (All (λ b. (heap s.world).bundles b ≢ none)) shape h.bundles_live).0)

  print-IsHeld : (s : Sender lo) → IsHeld lo contract s → IsHeld lo contract (print lo s)
  unfolding print
  print-IsHeld s h =
      IsHeld-Kept lo contract s (print lo s).world h
        (Kept-same lo contract s.world (print lo s).world (print-heap s h))

  emptied : (t : Sender lo) → t.message_in_progress ≡ false → t.bundles ≡ [] → IsHeld lo contract t
  emptied t out e =
      between lo contract t out (subst (All (λ b. (heap t.world).bundles b ≢ none)) (sym e) tt)

  send-IsHeld : (s t : Sender lo) → send lo s ≡ done t → IsHeld lo contract t
  unfolding send clear
  send-IsHeld s t e = go s.bundles refl
    where
      go : (bs : List Ptr) → s.bundles ≡ bs → IsHeld lo contract t
      go [] shape = emptied t (ground (arith, shape, e)) (ground (arith, shape, e))
      go (b ∷ bs) shape = emptied t (ground (arith, shape, e)) (ground (arith, shape, e))

  clear-IsHeld : (s : Sender lo) → s.message_in_progress ≡ false → IsHeld lo contract (clear lo s)
  unfolding clear
  clear-IsHeld s out = go s.bundles refl
    where
      go : (bs : List Ptr) → s.bundles ≡ bs → IsHeld lo contract (clear lo s)
      go [] shape = emptied (clear lo s) (ground (arith, shape, out)) (ground (arith, shape))
      go (b ∷ bs) shape = emptied (clear lo s) (ground (arith, shape, out)) (ground (arith, shape))

  run-IsHeld :
      (c : Command) (s t : Sender lo)
      → IsAllowed s c
      → IsHeld lo contract s
      → run lo c s ≡ done t
      → IsHeld lo contract t
  unfolding run begin_bundle_now
  run-IsHeld (Command.streams x) s t a h e = stream-IsHeld lo contract x s t h e
  run-IsHeld (Command.setup host port) s t a h e =
      subst (IsHeld lo contract) (ground (arith, e)) (setup-IsHeld host port s h)
  run-IsHeld Command.send s t a h e = send-IsHeld s t e
  run-IsHeld Command.clear s t a h e =
      subst (IsHeld lo contract) (ground (arith, e)) (clear-IsHeld s a.0)
  run-IsHeld Command.begin_bundle_now s t a h e =
      subst (IsHeld lo contract) (ground (arith, e)) (open_bundle-IsHeld lo contract immediate s h)
  run-IsHeld Command.print s t a h e =
      subst (IsHeld lo contract) (ground (arith, e)) (print-IsHeld s h)

  make_sender-IsHeld : (w : lo.World) → IsHeld lo contract (make_sender lo w)
  unfolding make_sender
  make_sender-IsHeld w = emptied (make_sender lo w) refl refl

  Reach-IsHeld : {s : Sender lo} → Reach lo s → IsHeld lo contract s
  Reach-IsHeld (made w) = make_sender-IsHeld w
  Reach-IsHeld (returns {s} {t} c r a e) = run-IsHeld c s t a (Reach-IsHeld r) e
  Reach-IsHeld (throws {s} {t} c x r e) =
      subst (IsHeld lo contract) (sym (run-thrown lo c s t x e)) (Reach-IsHeld r)

  -- No allowed call on a sender that a program can come to is undefined, and while a message is in
  -- progress the sender points to one that liblo made and that was not freed since; so are all its
  -- bundles.
  pub Reach-safe :
      {s : Sender lo} (c : Command)
      → Reach lo s
      → IsAllowed s c
      → (run lo c s ≢ undefined)
        × (s.message_in_progress ≡ true
            → (s.message ≢ null) × ((heap s.world).messages s.message ≢ none))
        × All (λ b. (heap s.world).bundles b ≢ none) s.bundles
  Reach-safe {s} c r a =
      let sound = Reach-IsSound lo (λ w. (contract.message_new_fresh w).0) r in
      let held = Reach-IsHeld r in
      (
        run-ne-undefined lo c s a sound,
        λ e. (sound.has_message e, held.message_live e),
        held.bundles_live,
      )
