-- ===== src/Sender/Script.antt =====
-- The chain of `<<` that a program writes for a given packet, as in src/lptest/main.cpp.
use lopack.Prelude.{
  true, false, List, [], ◌∷◌, ◌++◌, map, some, ◌≡◌, refl, sym, ap, ◌∙◌, fun_ext, length, All,
}
use lopack.Prelude.Text.{HasNoNul}
use lopack.Outcome.{Outcome, done, and_then, and_then_assoc}
use lopack.Liblo.{Liblo, Arg}
use lopack.Liblo.Packets.{Packet, Packets, message, bundle, end, next}
use lopack.Sender.State.{Sender}
use lopack.Sender.Stream.{Streamed, stream}

-- What is streamed for an argument.
unfoldable pub streamed : Arg → Streamed
streamed Arg.true_flag = Streamed.bool true
streamed Arg.false_flag = Streamed.bool false
streamed Arg.nil = Streamed.nil
streamed Arg.infinitum = Streamed.infinitum
streamed (Arg.char v) = Streamed.char v
streamed (Arg.int32 v) = Streamed.int32 v
streamed (Arg.int64 v) = Streamed.int64 v
streamed (Arg.float v) = Streamed.float v
streamed (Arg.double v) = Streamed.double v
streamed (Arg.string v) = Streamed.string v
streamed (Arg.symbol v) = Streamed.symbol (record { value = some v })
streamed (Arg.midi v) = Streamed.midi_message v
streamed (Arg.timetag v) = Streamed.timetag v
streamed (Arg.blob v) = Streamed.blob (record { content = v; size = length v })

unfoldable mutual
  pub script : Packet → List Streamed
  script (message path args) =
      Streamed.begin_message path ∷ (map streamed args ++ Streamed.end_message ∷ [])
  script (bundle tag ps) = Streamed.begin_bundle tag ∷ (script_all ps ++ Streamed.end_bundle ∷ [])

  pub script_all : Packets → List Streamed
  script_all end = []
  script_all (next p ps) = script p ++ script_all ps

-- No text of the packet has a NUL byte in it.
abbrev pub IsCleanArg : Arg → Type 0
IsCleanArg (Arg.string v) = HasNoNul v
IsCleanArg (Arg.symbol v) = HasNoNul v
IsCleanArg _ = Unit

abbrev mutual
  pub IsClean : Packet → Type 0
  IsClean (message path args) = HasNoNul path × All IsCleanArg args
  IsClean (bundle tag ps) = AreClean ps

  pub AreClean : Packets → Type 0
  AreClean end = Unit
  AreClean (next p ps) = IsClean p × AreClean ps

module _ (lo : Liblo) where
  unfoldable pub stream_all : List Streamed → Sender lo → Outcome (Sender lo)
  stream_all [] s = done s
  stream_all (x ∷ xs) s = and_then (stream lo x s) (stream_all xs)

  pub stream_all-append :
      (xs ys : List Streamed) (s : Sender lo)
      → stream_all (xs ++ ys) s ≡ and_then (stream_all xs s) (stream_all ys)
  unfolding stream_all
  stream_all-append [] ys s = refl
  stream_all-append (x ∷ xs) ys s =
      ap (and_then (stream lo x s)) (fun_ext (stream_all-append xs ys))
      ∙ sym (and_then_assoc (stream lo x s) (stream_all xs) (stream_all ys))

  -- What follows a chain that goes well.
  pub stream_all-then :
      (xs ys : List Streamed) (s : Sender lo) {t : Sender lo}
      → stream_all xs s ≡ done t
      → stream_all (xs ++ ys) s ≡ stream_all ys t
  stream_all-then xs ys s h = stream_all-append xs ys s ∙ ap (λ o. and_then o (stream_all ys)) h
