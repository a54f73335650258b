-- ===== src/Lptest/Polling.antt =====
-- That polling ends once a message with the address /quit comes, and else does not.
use lopack.Prelude.{
  ℕ, zero, suc, true, false, ◌||◌, List, none, some, ◌≡◌, ◌≢◌, refl, ap, ◌∙◌, arith, ◌≤◌, ◌<◌,
  Bool-cases, inl, inr,
}
use lopack.Prelude.Text.{Text, codes}
use lopack.Liblo.{Ptr, null, Arg}
use lopack.Log.{error_line}
use lopack.Received.Reader.{Reader}
use lopack.Receiver.State.{Server, Arrival, OscReceiver, logged, server_of}
use lopack.Receiver.Incoming.{handle_messages}
use lopack.Receiver.Messages.{handle_messages-take_in}
use lopack.Lptest.Callbacks.{
  TestState, object_callback, process_callback, say, round_line, poll_round, poll_loop, poll,
}
use lopack.Lptest.Handling.{Carry, IsServing, quits}
use lopack.Lptest.Intake.{take_in_lem}

module _ {W : Type 0} (read : Reader W) (p : Ptr) (set : p ≢ null) (fuel : ℕ)
    (enough : 1 ≤ fuel) where
  module _ (lo : Server W) where
    -- What a round of polling gets from liblo.
    pub record Gets (r : OscReceiver W TestState) (xs : List (Text × List Arg)) : Type 0 where
      pub world : W
      pub bytes : ℕ
      pub arrivals : List Arrival
      pub received : lo.server_recv_noblock (server_of lo r) 0 r.world ≡ (world, bytes, arrivals)
      pub carry : Carry read xs arrivals

    -- A message with the address `/quit` comes in round `n`, and what comes before can be read.
    pub data QuitsIn : ℕ → OscReceiver W TestState → Type 0 where
      quits_now :
          {r : OscReceiver W TestState} {xs : List (Text × List Arg)}
          → Gets r xs
          → quits xs ≡ true
          → QuitsIn 0 r
      quits_later :
          {n : ℕ} {r : OscReceiver W TestState} {xs : List (Text × List Arg)}
          → Gets r xs
          → ((s : OscReceiver W TestState) → poll_round read lo fuel r ≡ some s → QuitsIn n s)
          → QuitsIn (suc n) r

    poll_round_lem :
        (xs : List (Text × List Arg)) (r : OscReceiver W TestState)
        → IsServing false p r
        → Gets r xs
        → (s : OscReceiver W TestState) × (poll_round read lo fuel r ≡ some s)
          × IsServing false p s
          × (s.scene.user.done ≡ (quits xs || r.scene.user.done))
    unfolding poll_round
    poll_round_lem xs r v g =
        let all =
          take_in_lem read p set fuel enough false xs g.arrivals (record r { world = g.world })
            (record {
              server = v.server;
              running = v.running;
              listens = v.listens;
              attached = v.attached;
              object = v.object;
              sound = v.sound;
            })
            g.carry in
        let runs =
          handle_messages-take_in read (object_callback read) (process_callback read) lo fuel 0 r
            all.after g.world g.bytes g.arrivals v.server v.running g.received all.runs in
        (
          say (round_line g.bytes) all.after,
          rw (poll_round, runs) refl,
          ground (arith, all.polled),
          all.done,
        )

    poll_loop-done :
        (rounds : ℕ) (r : OscReceiver W TestState)
        → 0 < rounds
        → r.scene.user.done ≡ true
        → poll_loop read lo rounds fuel r ≡ some r
    unfolding poll_loop
    poll_loop-done zero r some_left e = elim some_left [ ]
    poll_loop-done (suc rounds) r some_left e = ground (arith, e)

    poll_loop-next :
        (rounds : ℕ) (r s : OscReceiver W TestState)
        → r.scene.user.done ≡ false
        → poll_round read lo fuel r ≡ some s
        → poll_loop read lo (suc rounds) fuel r ≡ poll_loop read lo rounds fuel s
    unfolding poll_loop
    poll_loop-next rounds r s e runs = ground (arith, e, runs)

    -- How polling is to end.
    abbrev pub Ends : ℕ → OscReceiver W TestState → Type 0
    Ends rounds r =
        (t : OscReceiver W TestState) × (poll_loop read lo rounds fuel r ≡ some t)
        × (t.scene.user.done ≡ true)
        × IsServing false p t

    Ends-now :
        (rounds : ℕ) (r : OscReceiver W TestState)
        → 0 < rounds
        → r.scene.user.done ≡ true
        → IsServing false p r
        → Ends rounds r
    Ends-now rounds r some_left e v = (r, poll_loop-done rounds r some_left e, e, v)

    Ends-next :
        (rounds : ℕ) (r s : OscReceiver W TestState)
        → r.scene.user.done ≡ false
        → poll_round read lo fuel r ≡ some s
        → Ends rounds s
        → Ends (suc rounds) r
    Ends-next rounds r s e runs (t, ends, d, v) = (t, poll_loop-next rounds r s e runs ∙ ends, d, v)

    poll_loop-Ends :
        (n rounds : ℕ) (r : OscReceiver W TestState)
        → IsServing false p r
        → QuitsIn n r
        → suc n < rounds
        → Ends rounds r
    poll_loop-Ends n zero r v q enough_rounds = elim enough_rounds [ ]
    poll_loop-Ends zero (suc rounds) r v (quits_now {xs} g quit) enough_rounds =
        elim (Bool-cases r.scene.user.done) [
          | inl e ↦ Ends-now (suc rounds) r (omega arith) e v
          | inr e ↦
              let (s, runs, w, d) = poll_round_lem xs r v g in
              Ends-next rounds r s e runs
                (Ends-now rounds s (omega arith) (d ∙ ap (λ b. b || r.scene.user.done) quit) w)
        ]
    poll_loop-Ends (suc n) (suc rounds) r v (quits_later {xs} g later) enough_rounds =
        elim (Bool-cases r.scene.user.done) [
          | inl e ↦ Ends-now (suc rounds) r (omega arith) e v
          | inr e ↦
              let (s, runs, w, d) = poll_round_lem xs r v g in
              Ends-next rounds r s e runs (poll_loop-Ends n rounds s w (later s runs) (omega arith))
        ]

    -- `poll` starts with `done` down.
    abbrev pub not_done : OscReceiver W TestState → OscReceiver W TestState
    not_done r = record r { scene = record r.scene { user = record r.scene.user { done = false } } }

    -- Where a message with the address `/quit` comes in some round, and all that comes until then
    -- can be read, `poll` ends: a bound of two rounds more is enough. It ends with `done` set, the
    -- object still attached and nothing gone wrong.
    pub poll-ends :
        (n rounds : ℕ) (r : OscReceiver W TestState)
        → IsServing false p r
        → QuitsIn n (not_done r)
        → suc n < rounds
        → (t : OscReceiver W TestState) × (poll read lo rounds fuel r ≡ some t)
          × (t.scene.user.done ≡ true)
          × IsServing false p t
    unfolding poll
    poll-ends n rounds r v q enough_rounds =
        poll_loop-Ends n rounds (not_done r)
          (record {
            server = v.server;
            running = v.running;
            listens = v.listens;
            attached = v.attached;
            object = v.object;
            sound = v.sound;
          })
          q enough_rounds

module _ {W : Type 0} (read : Reader W) (lo : Server W) where
  poll_loop-null :
      (rounds fuel : ℕ) (r : OscReceiver W TestState)
      → r.server_thread ≡ null
      → r.scene.user.done ≡ false
      → poll_loop read lo rounds fuel r ≡ none
  unfolding poll_loop poll_round handle_messages
  poll_loop-null zero fuel r unset e = refl
  poll_loop-null (suc rounds) fuel r unset e =
      let line = error_line (codes "OscReceiver: cannot handle messages, address not set") in
      ground
        (arith, unset, e, poll_loop-null rounds fuel (say (round_line 0) (logged line r)) unset e)

  -- `poll` of a receiver that was not set up never ends: no bound on the rounds is enough.
  pub poll-null :
      (rounds fuel : ℕ) (r : OscReceiver W TestState)
      → r.server_thread ≡ null
      → poll read lo rounds fuel r ≡ none
  unfolding poll
  poll-null rounds fuel r unset = poll_loop-null rounds fuel _ unset refl
