-- ===== src/Sender/Exceptions.antt =====
-- Which calls throw, and what they leave behind.
use lopack.Prelude.{◌≡◌, ◌↔◌, refl, arith}
use lopack.Outcome.{thrown, Exception}
use lopack.Liblo.{Liblo}
use lopack.Sender.State.{Sender, send}
use lopack.Sender.Build.{
  immediate, begin_message, add_bool, add_char, add_nil, add_infinitum, add_int32, add_int64,
  add_float, add_double, add_string, add_symbol, add_midi_message, add_timetag, add_blob,
  end_message, begin_bundle, begin_bundle_now, end_bundle,
}
use lopack.Sender.Stream.{Streamed, stream}
use lopack.Sender.Command.{Command, run}

module _ (lo : Liblo) where
  stream-thrown :
      (x : Streamed) (s t : Sender lo) (e : Exception) → stream lo x s ≡ thrown e t → t ≡ s
  unfolding stream begin_message add_bool add_char add_nil add_infinitum add_int32 add_int64
      add_float add_double add_string add_symbol add_midi_message add_timetag add_blob end_message
      begin_bundle end_bundle
  stream-thrown (Streamed.begin_message p) s t e h = ground arith
  stream-thrown x s t e h = ground arith

  -- A call that throws leaves the sender, and what it holds in liblo, as they were.
  pub run-thrown : (c : Command) (s t : Sender lo) (e : Exception) → run lo c s ≡ thrown e t → t ≡ s
  unfolding run send begin_bundle_now
  run-thrown (Command.streams x) s t e h = stream-thrown x s t e h
  run-thrown c s t e h = ground arith

  -- The two overloads of `beginBundle` agree exactly where a message is in progress if and only if a
  -- bundle is: `beginBundle()` tests the wrong flag.
  pub begin_bundle_now-agrees :
      (s : Sender lo)
      → (begin_bundle_now lo s ≡ begin_bundle lo immediate s)
        ↔ (s.bundle_in_progress ≡ s.message_in_progress)
  unfolding begin_bundle_now begin_bundle
  begin_bundle_now-agrees s = (λ e. ground arith, λ e. rw e refl)
