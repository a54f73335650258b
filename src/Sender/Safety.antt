-- ===== src/Sender/Safety.antt =====
-- A sender that is not cleared in the middle of building never reaches undefined behaviour.
use lopack.Prelude.{length, ltb, true, false, [], none, ◌≡◌, ◌≢◌, arith, sym, subst}
use lopack.Outcome.{done, thrown, undefined, Exception, ◌>>◌}
use lopack.Prelude.Text.{Text}
use lopack.Sender.Exceptions.{run-thrown}
use lopack.Liblo.{Liblo, null}
use lopack.Sender.State.{OscSender, Sender, make_sender, setup, clear, send, print}
use lopack.Sender.Build.{
  begin_message, add_bool, add_char, add_nil, add_infinitum, add_int32, add_int64, add_float,
  add_double, add_string, add_symbol, add_midi_message, add_timetag, add_blob, end_message,
  begin_bundle, begin_bundle_now, end_bundle,
}
use lopack.Sender.Stream.{Streamed, stream}
use lopack.Sender.Command.{Command, run}

-- liblo gave a message for each one in progress, and there is a bundle while one is in progress.
pub record IsSound (W : Type 0) (s : OscSender W) : Type 0 where
  pub has_message : s.message_in_progress ≡ true → s.message ≢ null
  pub has_bundle : s.bundle_in_progress ≡ true → s.bundles ≢ []

-- `clear` between messages and bundles only, no symbol that is NULL, and no blob that is larger than
-- the memory behind its pointer.
abbrev pub IsAllowed : {W : Type 0} → OscSender W → Command → Type 0
IsAllowed s Command.clear = (s.message_in_progress ≡ false) × (s.bundle_in_progress ≡ false)
IsAllowed s (Command.streams (Streamed.symbol v)) = v.value ≢ none
IsAllowed s (Command.streams (Streamed.blob v)) = ltb (length v.content) v.size ≡ false
IsAllowed s c = Unit

module _ (lo : Liblo) (new : (w : lo.World) → (lo.message_new w).1 ≢ null) where
  stream-IsSound :
      (x : Streamed) (s t : Sender lo)
      → IsSound lo.World s
      → stream lo x s ≡ done t
      → IsSound lo.World t
  unfolding stream begin_message add_bool add_char add_nil add_infinitum add_int32 add_int64
      add_float add_double add_string add_symbol add_midi_message add_timetag add_blob end_message
      begin_bundle end_bundle
  stream-IsSound (Streamed.begin_message p) s t v h = ground (arith, new s.world)
  stream-IsSound x s t v h = ground arith

  run-IsSound :
      (c : Command) (s t : Sender lo)
      → IsAllowed s c
      → IsSound lo.World s
      → run lo c s ≡ done t
      → IsSound lo.World t
  unfolding run send clear begin_bundle_now setup print
  run-IsSound (Command.streams x) s t a v h = stream-IsSound x s t v h
  run-IsSound c s t a v h = ground arith

module _ (lo : Liblo) where
  stream-ne-undefined :
      (x : Streamed) (s : Sender lo)
      → IsAllowed s (Command.streams x)
      → IsSound lo.World s
      → stream lo x s ≢ undefined
  unfolding stream begin_message add_bool add_char add_nil add_infinitum add_int32 add_int64
      add_float add_double add_string add_symbol add_midi_message add_timetag add_blob end_message
      begin_bundle end_bundle
  stream-ne-undefined (Streamed.begin_message p) s a v = ground (arith, v.has_message, v.has_bundle)
  stream-ne-undefined x s a v = ground (arith, v.has_message, v.has_bundle)

  pub run-ne-undefined :
      (c : Command) (s : Sender lo) → IsAllowed s c → IsSound lo.World s → run lo c s ≢ undefined
  unfolding run send begin_bundle_now
  run-ne-undefined (Command.streams x) s a v = stream-ne-undefined x s a v
  run-ne-undefined c s a v = ground arith

module _ (lo : Liblo) where
  -- The senders that a program can come to, catching what is thrown.
  pub data Reach : Sender lo → Type 0 where
    made : (w : lo.World) → Reach (make_sender lo w)
    returns :
        {s t : Sender lo} (c : Command) → Reach s → IsAllowed s c → run lo c s ≡ done t → Reach t
    throws :
        {s t : Sender lo} (c : Command) (e : Exception)
        → Reach s
        → run lo c s ≡ thrown e t
        → Reach t

module _ (lo : Liblo) (new : (w : lo.World) → (lo.message_new w).1 ≢ null) where
  make_sender-IsSound : (w : lo.World) → IsSound lo.World (make_sender lo w)
  unfolding make_sender
  make_sender-IsSound w = ground arith

  pub Reach-IsSound : {s : Sender lo} → Reach lo s → IsSound lo.World s
  Reach-IsSound (made w) = make_sender-IsSound w
  Reach-IsSound (returns {s} {t} c r a e) = run-IsSound lo new c s t a (Reach-IsSound r) e
  Reach-IsSound (throws {s} {t} c e r h) =
      subst (IsSound lo.World) (sym (run-thrown lo c s t e h)) (Reach-IsSound r)

module _ (lo : Liblo) where
  -- After `clear` inside a bundle, when no message is in progress, the next whole message is
  -- undefined: the flag is still up, and there is no bundle to add to.
  pub clear_in_bundle :
      (s : Sender lo) (pattern : Text)
      → s.bundle_in_progress ≡ true
      → s.message_in_progress ≡ false
      → (begin_message lo pattern >> end_message lo) (clear lo s) ≡ undefined
  unfolding clear begin_message end_message
  clear_in_bundle s pattern inside between = ground arith
