-- ===== src/Receiver/LeakTests.antt =====
-- Examples: a liblo that counts references, and a receiver with one object.
use lopack.Prelude.{
  ℕ, suc, Bool, true, false, List, [], ◌∷◌, some, ◌≡◌, ◌+◌, refl, ap, sym, arith, ◌==◌, ==_iff,
  Bool-cases, inl, inr,
}
use lopack.Prelude.Text.{codes}
use lopack.Liblo.{Ptr, update}
use lopack.Received.Reader.{Reader}
use lopack.Received.Example.{reader_of}
use lopack.Received.Read.{ReceivedMessage, MessageSource}
use lopack.Objects.Graph.{OscObject, make_object}
use lopack.Objects.Dispatch.{Handler}
use lopack.Objects.Order.{VisitsAll, visit, no_more, more}
use lopack.Receiver.State.{Arrival, OscReceiver}
use lopack.Receiver.Incoming.{take_in}
use lopack.Receiver.Leaks.{Counts, times, take_in-leaks}

-- The state is the number of references to each message.
abbrev counting_reader : Reader (Ptr → ℕ)
counting_reader = record (reader_of (λ p w. [])) { message_incref = λ p w. update w p (suc (w p)) }

abbrev refs : Ptr → (Ptr → ℕ) → ℕ
refs q w = w q

abbrev nobody_handles : ReceivedMessage → MessageSource → Handler ((Ptr → ℕ) × List Ptr)
nobody_handles msg source p address (w, seen) = ((w, p ∷ seen), false)

abbrev forgets :
    ReceivedMessage → MessageSource → (Ptr → ℕ) × List Ptr → ((Ptr → ℕ) × List Ptr) × Bool
forgets msg source (w, seen) = ((w, []), true)

counting_reader-Counts : Counts counting_reader nobody_handles forgets refs
counting_reader-Counts = record {
  incref = λ q p w. elim (Bool-cases (p == q)) [
    | inl same ↦
        rw (same, (==_iff q p).1 (sym ((==_iff p q).0 same)))
          (ap (λ k. suc (w k)) ((==_iff p q).0 same))
    | inr other ↦ let back : (q == p) ≡ false = ground (arith, other) in rw (other, back) refl
  ];
  handles = λ q msg source p t u. refl;
  processes = λ q msg source u. refl;
}

abbrev one_store : Ptr → OscObject
one_store p = make_object (codes "/object")

abbrev counted_receiver : OscReceiver (Ptr → ℕ) (List Ptr)
counted_receiver = record {
  osc_root_address = [];
  server_thread = 8;
  is_multicast = false;
  is_running = true;
  ignore_messages = false;
  objects = 2 ∷ [];
  world = λ p. 1;
  scene = record { store = one_store; user = []; console = [] };
}

one_object : VisitsAll one_store (2 ∷ []) (2 ∷ [])
unfolding make_object
one_object = more refl (visit no_more) no_more

abbrev pings : List Arrival
pings =
    record { path = codes "/ping"; message = 1 }
    ∷ record { path = codes "/pong"; message = 2 }
    ∷ record { path = codes "/ping"; message = 1 }
    ∷ []

take_in-leaks_example :
    (t : OscReceiver (Ptr → ℕ) (List Ptr)) × (take_in counting_reader nobody_handles forgets 1 pings
        counted_receiver
      ≡ some t)
    × (t.world 1 ≡ 1 + times 1 pings)
take_in-leaks_example =
    take_in-leaks counting_reader nobody_handles forgets refs 1 1 pings counted_receiver
      counting_reader-Counts one_object (omega arith)
