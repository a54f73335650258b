-- ===== src/Sender/Scope.antt =====
-- A sender's set-up and destructor, where nothing is in progress.
use lopack.Prelude.{ℕ, ◌≡◌, ◌≢◌, refl, arith}
use lopack.Prelude.Text.{Text, c_string}
use lopack.Prelude.Decimal.{decimal}
use lopack.Liblo.{Liblo, Ptr, null}
use lopack.Sender.State.{make_sender, setup, clear, destroy}
use lopack.Sender.Emit.{idle}

module _ (lo : Liblo) where
  pub setup-idle :
      (host : Text) (port : ℕ) (w : lo.World)
      → let made = lo.address_new (c_string host) (c_string (decimal port)) w in
        setup lo host port (make_sender lo w) ≡ idle lo made.1 made.0
  unfolding setup make_sender
  setup-idle host port w = refl

  pub destroy-idle :
      (a : Ptr) (w : lo.World) → a ≢ null → (destroy lo (idle lo a w)).world ≡ lo.address_free a w
  unfolding destroy clear
  destroy-idle a w set = ground (arith, set)
