-- ===== src/Sender/OwnedTests.antt =====
-- Example: a sender is set up twice, and calls that throw come between.
use lopack.Prelude.{true, false, ◌&&◌, List, [], ◌∷◌, some, ◌≡◌, refl, if◌then◌else◌}
use lopack.Prelude.Text.{codes}
use lopack.Liblo.{update}
use lopack.Liblo.Reference.{start, reference, reference_addresses}
use lopack.Sender.State.{Sender, is_set, make_sender, setup, send, destroy}
use lopack.Sender.Build.{begin_message, end_message}
use lopack.Sender.Stream.{Streamed, stream}
use lopack.Sender.Command.{Command, run}
use lopack.Sender.Owned.{run_caught, run_caught-addresses}

abbrev calls : List Command
calls =
    Command.send
    ∷ Command.setup (codes "127.0.0.1") 9990
    ∷ Command.streams (Streamed.begin_message (codes "/a"))
    ∷ Command.streams (Streamed.begin_message (codes "/b"))
    ∷ Command.setup (codes "127.0.0.1") 9991
    ∷ Command.send
    ∷ Command.streams Streamed.end_message
    ∷ Command.send
    ∷ []

-- The sender that is left points to the second address.
left_over :
    (s : Sender reference) × (run_caught reference calls (make_sender reference start) ≡ some s)
    × (s.address ≡ 2)
unfolding run_caught run make_sender setup send stream begin_message end_message
left_over = (_, refl, refl)

run_caught-addresses_example :
    ((is_set left_over.0.address && reference_addresses.live start left_over.0.address) ≡ false)
    × (reference_addresses.live left_over.0.world ≡ (
        if is_set left_over.0.address
        then update (reference_addresses.live start) left_over.0.address true
        else reference_addresses.live start))
    × (reference_addresses.live (destroy reference left_over.0).world
        ≡ reference_addresses.live start)
run_caught-addresses_example =
    run_caught-addresses reference reference_addresses calls start left_over.0 left_over.1
