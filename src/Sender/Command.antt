-- ===== src/Sender/Command.antt =====
-- Every member function of OscSender that changes it, as data, and what a program can do with one.
use lopack.Prelude.{ℕ}
use lopack.Prelude.Text.{Text}
use lopack.Outcome.{Outcome, done}
use lopack.Liblo.{Liblo}
use lopack.Sender.State
use lopack.Sender.State.{Sender}
use lopack.Sender.Build
use lopack.Sender.Stream.{Streamed, stream}

pub data Command : Type 0 where
  streams : Streamed → Command
  setup : Text → ℕ → Command
  send clear begin_bundle_now print : Command

module _ (lo : Liblo) where
  unfoldable pub run : Command → Sender lo → Outcome (Sender lo)
  run (streams x) s = stream lo x s
  run (setup host port) s = done (State.setup lo host port s)
  run send s = State.send lo s
  run clear s = done (State.clear lo s)
  run begin_bundle_now s = Build.begin_bundle_now lo s
  run print s = done (State.print lo s)
