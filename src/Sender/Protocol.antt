-- ===== src/Sender/Protocol.antt =====
-- The protocol of the calls: what a sender's next call does, told from five facts about the sender.
use lopack.Prelude.{
  ℕ, zero, suc, Bool, true, false, not, ltb, ◌||◌, ◌&&◌, List, [], ◌∷◌, none, some, ◌≡◌, ◌≢◌, refl,
  ap, ◌∙◌, arith, length, if◌then◌else◌,
}
use lopack.Outcome.{
  Outcome, done, thrown, undefined, Exception, and_then, send_exception, bundle_not_in_progress,
  message_in_progress, message_not_in_progress,
}
use lopack.Liblo.{Liblo, null}
use lopack.Prelude.Text.{Text, c_string}
use lopack.Prelude.Decimal.{decimal}
use lopack.Sender.State.{OscSender, Sender, is_set, setup, clear, send, print}
use lopack.Sender.Build.{
  begin_message, add_bool, add_char, add_nil, add_infinitum, add_int32, add_int64, add_float,
  add_double, add_string, add_symbol, add_midi_message, add_timetag, add_blob, end_message,
  begin_bundle, begin_bundle_now, end_bundle,
}
use lopack.Sender.Stream.{Streamed, stream}
use lopack.Sender.Command.{Command, run}

-- Has the sender an address and a message, is it inside a message or a bundle, and how many
-- bundles does it hold?
pub record Phase : Type 0 where
  pub addressed : Bool
  pub filled : Bool
  pub writing : Bool
  pub bundling : Bool
  pub depth : ℕ

abbrev pub phase : {W : Type 0} → OscSender W → Phase
phase s = record {
  addressed = is_set s.address;
  filled = is_set s.message;
  writing = s.message_in_progress;
  bundling = s.bundle_in_progress;
  depth = length s.bundles;
}

-- A call goes through, is refused with an exception, or has undefined behaviour.
pub data Verdict : Type 0 where
  goes : Phase → Verdict
  refuses : Exception → Phase → Verdict
  breaks : Verdict

adding : Phase → Verdict
adding p =
    if p.writing then (if p.filled then goes p else breaks) else refuses message_not_in_progress p

-- `endMessage` inside a bundle hands the message over to the bundle at the back.
handing_over : ℕ → Phase → Verdict
handing_over zero p = breaks
handing_over (suc n) p =
    if p.filled then goes (record p { writing = false; filled = false }) else breaks

opening : Phase → Verdict
opening p = goes (record p { bundling = true; depth = suc p.depth })

closing : ℕ → Phase → Verdict
closing (suc (suc n)) p = goes (record p { depth = suc n })
closing n p = goes (record p { bundling = false })

emptied : Phase → Phase
emptied p = record p { filled = false; depth = 0 }

sending : ℕ → Phase → Verdict
unfolding emptied
sending zero p = if p.filled then goes (emptied p) else refuses send_exception p
sending (suc n) p = goes (emptied p)

unfoldable pub judge_streamed : Streamed → Phase → Verdict
unfolding adding handing_over opening closing
judge_streamed (Streamed.begin_message path) p =
    if p.writing
    then refuses message_in_progress p
    else goes (record p { writing = true; filled = true })
judge_streamed Streamed.end_message p =
    if p.writing
    then (if p.bundling then handing_over p.depth p else goes (record p { writing = false }))
    else refuses message_not_in_progress p
judge_streamed (Streamed.begin_bundle tag) p =
    if p.writing then refuses message_in_progress p else opening p
judge_streamed Streamed.end_bundle p =
    if p.bundling then closing p.depth p else refuses bundle_not_in_progress p
judge_streamed (Streamed.symbol v) p = elim v.value [
  | none ↦ if p.writing then breaks else refuses message_not_in_progress p
  | some t ↦ adding p
]
judge_streamed (Streamed.blob v) p =
    if p.writing && ltb (length v.content) v.size then breaks else adding p
judge_streamed x p = adding p

unfoldable pub judge : Command → Phase → Verdict
unfolding judge_streamed opening sending emptied
judge (Command.streams x) p = judge_streamed x p
judge (Command.setup host port) p = goes (record p { addressed = true })
judge Command.send p =
    if not p.addressed || p.bundling || p.writing
    then refuses send_exception p
    else sending p.depth p
judge Command.clear p = goes (emptied p)
judge Command.begin_bundle_now p = if p.bundling then refuses message_in_progress p else opening p
judge Command.print p = goes p

-- Go on from the phase of a call that goes through.
abbrev pub goes_on : Verdict → (Phase → Verdict) → Verdict
goes_on (goes p) next = next p
goes_on (refuses e p) next = refuses e p
goes_on breaks next = breaks

-- The calls in turn, up to the first that does not go through.
unfoldable pub judge_all : List Command → Phase → Verdict
judge_all [] p = goes p
judge_all (c ∷ cs) p = goes_on (judge c p) (judge_all cs)

-- What shows of an outcome.
abbrev pub verdict_of : {W : Type 0} → Outcome (OscSender W) → Verdict
verdict_of (done t) = goes (phase t)
verdict_of (thrown e t) = refuses e (phase t)
verdict_of undefined = breaks

module _ (lo : Liblo) where
  unfoldable pub run_all : List Command → Sender lo → Outcome (Sender lo)
  run_all [] s = done s
  run_all (c ∷ cs) s = and_then (run lo c s) (run_all cs)

module _ (lo : Liblo) (new_message : (w : lo.World) → (lo.message_new w).1 ≢ null)
    (new_address : (host port : Text) (w : lo.World) → (lo.address_new host port w).1 ≢ null) where
  stream-judge :
      (x : Streamed) (s : Sender lo) → verdict_of (stream lo x s) ≡ judge_streamed x (phase s)
  unfolding judge_streamed stream begin_message add_bool add_char add_nil add_infinitum add_int32
      add_int64 add_float add_double add_string add_symbol add_midi_message add_timetag add_blob
      end_message begin_bundle end_bundle
  stream-judge (Streamed.begin_message path) s = ground (arith, new_message s.world)
  stream-judge x s = ground arith

  run-judge : (c : Command) (s : Sender lo) → verdict_of (run lo c s) ≡ judge c (phase s)
  unfolding judge run setup clear send print begin_bundle_now
  run-judge (Command.streams x) s = stream-judge x s
  run-judge (Command.setup host port) s = ground (
    arith,
    new_address (c_string host) (c_string (decimal port))
        (if is_set s.address then lo.address_free s.address s.world else s.world),
  )
  run-judge c s = ground arith

  and_then-goes_on :
      (o : Outcome (Sender lo)) (f : Sender lo → Outcome (Sender lo)) (g : Phase → Verdict)
      → ((t : Sender lo) → verdict_of (f t) ≡ g (phase t))
      → verdict_of (and_then o f) ≡ goes_on (verdict_of o) g
  and_then-goes_on (done t) f g h = h t
  and_then-goes_on (thrown e t) f g h = refl
  and_then-goes_on undefined f g h = refl

  -- With a liblo that never fails to make a message or an address: whether any calls in turn go
  -- through, where they stop, with which exception or in undefined behaviour, and in which phase the
  -- sender is then, is what the protocol says of the phase before them.
  pub run_all-judge_all :
      (cs : List Command) (s : Sender lo) → verdict_of (run_all lo cs s) ≡ judge_all cs (phase s)
  unfolding run_all judge_all
  run_all-judge_all [] s = refl
  run_all-judge_all (c ∷ cs) s =
      and_then-goes_on (run lo c s) (run_all lo cs) (judge_all cs) (run_all-judge_all cs)
      ∙ ap (λ v. goes_on v (judge_all cs)) (run-judge c s)
