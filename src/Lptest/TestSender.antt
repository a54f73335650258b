-- ===== src/Lptest/TestSender.antt =====
-- testSender of src/lptest/main.cpp, after its set-up. The clock and the arithmetic of TimeTag(10) are
-- parameters.
use lopack.Prelude.{
  ℕ, true, false, List, [], ◌∷◌, ◌++◌, some, ◌≡◌, ◌≢◌, refl, sym, ap, ◌∙◌, fun_ext, arith,
}
use lopack.Prelude.Text.{codes}
use lopack.Types.{MidiMessage, TimeTag, midi_bytes}
use lopack.Types.Time.{Doubles, time_tag_ahead}
use lopack.Outcome.{
  Outcome, done, thrown, undefined, and_then, and_then_assoc, Result, returned, raised,
  undetermined,
}
use lopack.Liblo.{Liblo, Ptr, null, Arg, Sent}
use lopack.Liblo.Contract.{Contract}
use lopack.Liblo.Packets.{Packet, message, bundle, end, next}
use lopack.Sender.{Sender, send}
use lopack.Sender.Stream.{Streamed}
use lopack.Sender.Script.{streamed, script, stream_all, stream_all-append}
use lopack.Sender.Emit.{idle}
use lopack.Sender.Frame.{SameObjects}
use lopack.Sender.Sequence.{send_each, CarriesAll, deliver_each}

abbrev pub m : MidiMessage
m = midi_bytes 0x7F 0x90 0x3E 0x60

abbrev pub blob_data : List ℕ
blob_data = codes "this is some blob data" ++ 0 ∷ []

abbrev blob_streamed : Streamed
blob_streamed = Streamed.blob (record { content = blob_data; size = 23 })

-- One statement after the other.
unfoldable in_order : {S : Type 0} → List (S → Outcome S) → S → Outcome S
in_order [] s = done s
in_order (f ∷ fs) s = and_then (f s) (in_order fs)

-- What the clock reads for TimeTag() of `/test3`, for the one of BeginBundle() and for TimeTag(10).
pub record Readings : Type 0 where
  pub now : TimeTag
  pub began : TimeTag
  pub later : TimeTag

module _ (lo : Liblo) where
  -- A statement that streams a time tag, whose computation may be undefined.
  abbrev with_tag :
      Result TimeTag → (TimeTag → Sender lo → Outcome (Sender lo)) → Sender lo → Outcome (Sender lo)
  with_tag (returned tag) f s = f tag s
  with_tag (raised e) f s = thrown e s
  with_tag undetermined f s = undefined

  -- The statements, by what TimeTag(10) comes to.
  abbrev statements :
      (now began : TimeTag) → Result TimeTag → List (Sender lo → Outcome (Sender lo))
  statements now began ahead =
      stream_all lo (
        Streamed.begin_message (codes "/test1")
        ∷ Streamed.bool true
        ∷ Streamed.float 0x42200000
        ∷ Streamed.float 0x44800afd
        ∷ Streamed.nil
        ∷ Streamed.string (codes "string one")
        ∷ Streamed.string (codes "string two")
        ∷ Streamed.end_message
        ∷ [])
      ∷ send lo
      ∷ stream_all lo (
          Streamed.begin_message (codes "/test2")
          ∷ Streamed.midi_message m
          ∷ blob_streamed
          ∷ Streamed.end_message
          ∷ [])
      ∷ send lo
      ∷ stream_all lo (
          Streamed.begin_message (codes "/test3")
          ∷ Streamed.bool true
          ∷ Streamed.bool false
          ∷ Streamed.char b'c'
          ∷ Streamed.nil
          ∷ Streamed.infinitum
          ∷ Streamed.int32 100
          ∷ Streamed.int64 200
          ∷ Streamed.float 0x42f6e666
          ∷ Streamed.double 0x4085373333333333
          ∷ Streamed.string (codes "a string")
          ∷ Streamed.symbol (record { value = some (codes "a symbol") })
          ∷ Streamed.midi_message m
          ∷ Streamed.timetag now
          ∷ blob_streamed
          ∷ Streamed.end_message
          ∷ [])
      ∷ send lo
      ∷ stream_all lo (Streamed.begin_bundle began ∷ [])
      ∷ with_tag ahead (λ tag. stream_all lo (
          Streamed.begin_message (codes "/test4")
          ∷ Streamed.bool false
          ∷ Streamed.int32 100
          ∷ Streamed.float 0x43480000
          ∷ Streamed.string (codes "kraaa")
          ∷ Streamed.end_message
          ∷ Streamed.begin_bundle tag
          ∷ Streamed.begin_message (codes "/test5")
          ∷ Streamed.string (codes "foo")
          ∷ Streamed.string (codes "bar")
          ∷ Streamed.end_message
          ∷ Streamed.end_bundle
          ∷ []))
      ∷ stream_all lo (Streamed.end_bundle ∷ [])
      ∷ send lo
      ∷ stream_all lo (
          Streamed.begin_message (codes "/object")
          ∷ Streamed.int32 123
          ∷ Streamed.float 0x43e463d7
          ∷ Streamed.string (codes "foo bar")
          ∷ Streamed.end_message
          ∷ [])
      ∷ send lo
      ∷ stream_all lo (Streamed.begin_message (codes "/quit") ∷ Streamed.end_message ∷ [])
      ∷ send lo
      ∷ []

  unfoldable pub test_sender : Doubles → Readings → Sender lo → Outcome (Sender lo)
  unfolding in_order stream_all time_tag_ahead
  test_sender d r = in_order (statements r.now r.began (time_tag_ahead d r.later 10))

-- The arguments that the test receiver parses.
abbrev pub all_types : TimeTag → List Arg
all_types now =
    Arg.true_flag
    ∷ Arg.false_flag
    ∷ Arg.char b'c'
    ∷ Arg.nil
    ∷ Arg.infinitum
    ∷ Arg.int32 100
    ∷ Arg.int64 200
    ∷ Arg.float 0x42f6e666
    ∷ Arg.double 0x4085373333333333
    ∷ Arg.string (codes "a string")
    ∷ Arg.symbol (codes "a symbol")
    ∷ Arg.midi m
    ∷ Arg.timetag now
    ∷ Arg.blob blob_data
    ∷ []

-- The six packets.
abbrev pub test_packets : (now began ahead : TimeTag) → List Packet
test_packets now began ahead =
    message (codes "/test1") (
      Arg.true_flag
      ∷ Arg.float 0x42200000
      ∷ Arg.float 0x44800afd
      ∷ Arg.nil
      ∷ Arg.string (codes "string one")
      ∷ Arg.string (codes "string two")
      ∷ [])
    ∷ message (codes "/test2") (Arg.midi m ∷ Arg.blob blob_data ∷ [])
    ∷ message (codes "/test3") (all_types now)
    ∷ bundle began (
        next
          (message (codes "/test4") (
            Arg.false_flag
            ∷ Arg.int32 100
            ∷ Arg.float 0x43480000
            ∷ Arg.string (codes "kraaa")
            ∷ []))
          (next
            (bundle ahead (
              next
                (message (codes "/test5")
                  (Arg.string (codes "foo") ∷ Arg.string (codes "bar") ∷ []))
                end))
            end))
    ∷ message (codes "/object")
        (Arg.int32 123 ∷ Arg.float 0x43e463d7 ∷ Arg.string (codes "foo bar") ∷ [])
    ∷ message (codes "/quit") []
    ∷ []

module _ (lo : Liblo) where
  join_streams :
      (xs ys : List Streamed) (fs : List (Sender lo → Outcome (Sender lo))) (s : Sender lo)
      → in_order (stream_all lo xs ∷ stream_all lo ys ∷ fs) s
        ≡ in_order (stream_all lo (xs ++ ys) ∷ fs) s
  unfolding in_order
  join_streams xs ys fs s =
      sym (and_then_assoc (stream_all lo xs s) (stream_all lo ys) (in_order fs))
      ∙ ap (λ o. and_then o (in_order fs)) (sym (stream_all-append lo xs ys s))

  in_order-send_each :
      (p : Packet) (ps : List Packet) (fs : List (Sender lo → Outcome (Sender lo)))
      → ((s : Sender lo) → in_order fs s ≡ send_each lo ps s)
      → (s : Sender lo)
      → in_order (stream_all lo (script p) ∷ send lo ∷ fs) s ≡ send_each lo (p ∷ ps) s
  unfolding in_order send_each
  in_order-send_each p ps fs h s =
      sym (and_then_assoc (stream_all lo (script p) s) (send lo) (in_order fs))
      ∙ ap (and_then (and_then (stream_all lo (script p) s) (send lo))) (fun_ext h)

  -- The statements stream and send the packets in turn; a packet may be streamed in several parts.
  data Sends : List (Sender lo → Outcome (Sender lo)) → List Packet → Type 0 where
    all_sent : Sends [] []
    one_sent :
        {p : Packet} {ps : List Packet} {fs : List (Sender lo → Outcome (Sender lo))}
        → Sends fs ps
        → Sends (stream_all lo (script p) ∷ send lo ∷ fs) (p ∷ ps)
    in_parts :
        (xs ys : List Streamed) {ps : List Packet} {fs : List (Sender lo → Outcome (Sender lo))}
        → Sends (stream_all lo (xs ++ ys) ∷ fs) ps
        → Sends (stream_all lo xs ∷ stream_all lo ys ∷ fs) ps

  in_order-Sends :
      {fs : List (Sender lo → Outcome (Sender lo))} {ps : List Packet}
      → Sends fs ps
      → (s : Sender lo) → in_order fs s ≡ send_each lo ps s
  unfolding in_order send_each
  in_order-Sends all_sent s = refl
  in_order-Sends (one_sent {p} {ps} {fs} h) s = in_order-send_each p ps fs (in_order-Sends h) s
  in_order-Sends (in_parts xs ys {ps} {fs} h) s = join_streams xs ys fs s ∙ in_order-Sends h s

  statements-Sends :
      (now began ahead : TimeTag)
      → Sends (statements lo now began (returned ahead)) (test_packets now began ahead)
  unfolding script streamed
  statements-Sends now began ahead =
      one_sent (
        one_sent (one_sent (in_parts _ _ (in_parts _ _ (one_sent (one_sent (one_sent all_sent)))))))

module _ (lo : Liblo) (contract : Contract lo) where
  open contract use {heap, sent}

  -- From an idle sender with an address, and where TimeTag(10) is in range, testSender ends with no
  -- exception and an idle sender, and what it adds to the transmissions is its six packets, in order,
  -- to that address, with the tags that the clock and TimeTag(10) give; liblo's messages, bundles and
  -- blobs are then what they were before.
  pub test_sender-delivers :
      (d : Doubles) (r : Readings) (ahead : TimeTag) (a : Ptr) (w : lo.World)
      → time_tag_ahead d r.later 10 ≡ returned ahead
      → a ≢ null
      → (v : lo.World) × (xs : List Sent) × (test_sender lo d r (idle lo a w) ≡ done (idle lo a v))
        × (sent v ≡ sent w ++ xs)
        × CarriesAll lo contract a (test_packets r.now r.began ahead) xs
        × SameObjects (heap w) (heap v)
  unfolding test_sender
  test_sender-delivers d r ahead a w timed set =
      let (v, xs, runs, sends, carry, same) =
        deliver_each lo contract a (test_packets r.now r.began ahead) w set (omega arith) in
      (
        v,
        xs,
        ap (λ t. in_order (statements lo r.now r.began t) (idle lo a w)) timed
            ∙ in_order-Sends lo (statements-Sends lo r.now r.began ahead) (idle lo a w)
            ∙ runs,
        sends,
        carry,
        same,
      )
