-- ===== src/Sender/Owned.antt =====
-- That a sender gives back the addresses that it makes, once each.
use lopack.Prelude.{
  ℕ, Bool, true, false, List, [], ◌∷◌, ◌&&◌, Option, none, some, ◌≡◌, ◌≢◌, refl, sym, ap, subst,
  ◌∙◌, arith, Bool-cases, inl, inr, if◌then◌else◌,
}
use mathlib.Core.Option.{some-injective}
use lopack.Prelude.Text.{Text, c_string}
use lopack.Prelude.Decimal.{decimal}
use lopack.Outcome.{Outcome, done, thrown, undefined}
use lopack.Liblo.{Liblo, Ptr, null, update}
use lopack.Liblo.Addresses.{Addresses}
use lopack.Liblo.Updates.{at, update_self, update-update, update_same}
use lopack.Sender.State.{Sender, is_set, make_sender, setup, free_address, clear, print, destroy}
use lopack.Sender.Build.{immediate, begin_bundle_now}
use lopack.Sender.Command.{Command, run}
use lopack.Sender.Exceptions.{run-thrown}
use lopack.Sender.Addresses.{Same, clear-Same, stream-Same, open_bundle-live, send-Same, print-Same}

module _ (lo : Liblo) (a : Addresses lo) where
  -- Beside those of `was`, the address that the sender points to is live, if it has one.
  abbrev IsOwned : (Ptr → Bool) → Ptr → (Ptr → Bool) → Type 0
  IsOwned was p live =
      (is_set p ≡ true → was p ≡ false) × (live ≡ (if is_set p then update was p true else was))

  abbrev Owns : (Ptr → Bool) → Sender lo → Type 0
  Owns was s = IsOwned was s.address (a.live s.world)

  Owns-Same : (was : Ptr → Bool) (s t : Sender lo) → Same lo a s t → Owns was s → Owns was t
  Owns-Same was s t same o = rw (same.0, same.1) o

  free_address-live :
      (was : Ptr → Bool) (s : Sender lo) → Owns was s → a.live (free_address lo s) ≡ was
  unfolding free_address
  free_address-live was s o = elim (Bool-cases (is_set s.address)) [
    | inr unset ↦ rw (unset, free_address) (o.1 ∙ rw unset refl)
    | inl set ↦
        let now : a.live s.world ≡ update was s.address true = o.1 ∙ rw set refl in
        rw (set, free_address)
          (a.free_live s.address s.world (at now s.address ∙ update_self was s.address true)
            ∙ ap (λ f. update f s.address false) now
            ∙ update-update was s.address true false
            ∙ sym (update_same was s.address false (o.0 set)))
  ]

  new-IsOwned :
      (was : Ptr → Bool) (host port : Text) (w : lo.World)
      → a.live w ≡ was
      → IsOwned was (lo.address_new host port w).1 (a.live (lo.address_new host port w).0)
  new-IsOwned was host port w before =
      let p = (lo.address_new host port w).1 in
      elim (Bool-cases (is_set p)) [
        | inr unset ↦ (
          λ set. ground (arith, unset, set),
          rw unset (a.new_failed host port w (ground (arith, unset)) ∙ before),
        )
        | inl set ↦
            let some_address : p ≢ null = λ e. ground (arith, set, e) in
            (
              λ _. sym (at before p) ∙ a.new_fresh host port w some_address,
              rw set (a.new_live host port w some_address ∙ ap (λ f. update f p true) before),
            )
      ]

  setup-Owns :
      (was : Ptr → Bool) (host : Text) (port : ℕ) (s : Sender lo)
      → Owns was s
      → Owns was (setup lo host port s)
  unfolding setup
  setup-Owns was host port s o =
      new-IsOwned was (c_string host) (c_string (decimal port)) (free_address lo s)
        (free_address-live was s o)

  run-Owns :
      (was : Ptr → Bool) (c : Command) (s t : Sender lo)
      → Owns was s
      → run lo c s ≡ done t
      → Owns was t
  unfolding run begin_bundle_now
  run-Owns was (Command.streams x) s t o h = Owns-Same was s t (stream-Same lo a x s t h) o
  run-Owns was (Command.setup host port) s t o h =
      let e : setup lo host port s ≡ t = ground (arith, h) in
      subst (Owns was) e (setup-Owns was host port s o)
  run-Owns was Command.send s t o h = Owns-Same was s t (send-Same lo a s t h) o
  run-Owns was Command.clear s t o h =
      let e : clear lo s ≡ t = ground (arith, h) in
      subst (Owns was) e (Owns-Same was s (clear lo s) (clear-Same lo a s) o)
  run-Owns was Command.begin_bundle_now s t o h =
      Owns-Same was s t (ground (arith, h, open_bundle-live lo a immediate s)) o
  run-Owns was Command.print s t o h =
      let e : print lo s ≡ t = ground (arith, h) in
      subst (Owns was) e (Owns-Same was s (print lo s) (print-Same lo a s) o)

module _ (lo : Liblo) where
  -- Calls in turn, where what is thrown is caught; none is left after undefined behaviour.
  unfoldable pub run_caught : List Command → Sender lo → Option (Sender lo)
  run_caught [] s = some s
  run_caught (c ∷ cs) s = elim (run lo c s) [
    | done t ↦ run_caught cs t
    | thrown e t ↦ run_caught cs t
    | undefined ↦ none
  ]

module _ (lo : Liblo) (a : Addresses lo) where
  run_caught-Owns :
      (was : Ptr → Bool) (cs : List Command) (s t : Sender lo)
      → Owns lo a was s
      → run_caught lo cs s ≡ some t
      → Owns lo a was t
  unfolding run_caught
  run_caught-Owns was [] s t o h = subst (Owns lo a was) (some-injective s t h) o
  run_caught-Owns was (c ∷ cs) s t o h =
      go (run lo c s) refl (λ u p e. run_caught-Owns was cs u t p e)
    where
      go :
          (r : Outcome (Sender lo))
          → run lo c s ≡ r
          → ((u : Sender lo) → Owns lo a was u → run_caught lo cs u ≡ some t → Owns lo a was t)
          → Owns lo a was t
      go (done u) e rest = rest u (run-Owns lo a was c s u o e) (ground (arith, e, h))
      go (thrown x u) e rest =
          rest u (subst (Owns lo a was) (sym (run-thrown lo c s u x e)) o) (ground (arith, e, h))
      go undefined e rest = ground (arith, e, h)

  -- Whatever calls are made on a new sender, and whatever they throw, short of undefined behaviour:
  -- of the addresses that it made exactly the one it points to is live, if it has one, which was not
  -- live before, and those of others are as they were; and after its destructor the live addresses
  -- are those from before it was made.
  pub run_caught-addresses :
      (cs : List Command) (w : lo.World) (s : Sender lo)
      → run_caught lo cs (make_sender lo w) ≡ some s
      → ((is_set s.address && a.live w s.address) ≡ false)
        × (a.live s.world
            ≡ (if is_set s.address then update (a.live w) s.address true else a.live w))
        × (a.live (destroy lo s).world ≡ a.live w)
  unfolding make_sender destroy
  run_caught-addresses cs w s h =
      let o = run_caught-Owns (a.live w) cs (make_sender lo w) s (λ z. ground (arith, z), refl) h in
      (
        ground (arith, o.0, Bool-cases (is_set s.address)),
        o.1,
        (clear-Same lo a (record s { world = free_address lo s })).1
            ∙ free_address-live lo a (a.live w) s o,
      )
