-- ===== src/Receiver/Tests.antt =====
-- Examples: a small server, and a receiver with two objects.
use lopack.Prelude.{Bool, true, false, List, [], ◌∷◌, ◌++◌, none, some, ◌≡◌, refl, arith}
use lopack.Prelude.Text.{Text, codes}
use lopack.Outcome.{done}
use lopack.Liblo.{Ptr, null, Arg}
use lopack.Log.{Channel, warning}
use lopack.Received.Example.{list_reader}
use lopack.Received.Read.{ReceivedMessage, MessageSource, receive}
use lopack.Objects.Graph.{OscObject, make_object}
use lopack.Objects.Dispatch.{Handler, World, process_osc_message, process_osc}
use lopack.Objects.Order.{VisitsAll, visit, no_more, more, offer}
use lopack.Receiver.State.{
  Server, opened, reported, Arrival, OscReceiver, make_receiver, setup, start, stop, add_osc_object,
}
use lopack.Receiver.Incoming.{process_message, message_cb, handle_messages}
use lopack.Receiver.Life.{sets_up, starts, stops, adds, call, IsConsistent}
use lopack.Receiver.Messages.{process_message-offer}
use lopack.Receiver.Threads.{
  Event, called, polled, came, Runs, stays, calls, polls, comes, Runs-IsConsistent,
}
use lopack.Receiver.Silence.{Runs-ignored}

-- The state is the arguments of the message at hand. A multicast server is always an error.
abbrev small_server : Server (List Arg)
small_server = record {
  server_thread_new = λ port w. (w, opened 8);
  server_thread_new_multicast = λ group port w. (w, reported 9 none none);
  server_thread_add_method = λ p w. w;
  server_thread_start = λ p w. w;
  server_thread_stop = λ p w. w;
  server_thread_get_server = λ p w. p;
  server_recv_noblock = λ p timeout w. (w, 0, []);
  url_get_hostname = λ url. codes "localhost";
  server_get_url = λ p w. codes "osc.udp://localhost:9990/";
  server_get_port = λ p w. 9990;
}

abbrev plain_store : Ptr → OscObject
plain_store p = make_object (codes "/object")

abbrev empty_scene : World (List Ptr)
empty_scene = record { store = plain_store; user = []; console = [] }

abbrev new_receiver : OscReceiver (List Arg) (List Ptr)
new_receiver = make_receiver [] [] empty_scene

abbrev listening : OscReceiver (List Arg) (List Ptr)
listening = record {
  osc_root_address = [];
  server_thread = 8;
  is_multicast = false;
  is_running = true;
  ignore_messages = false;
  objects = 2 ∷ 3 ∷ [];
  world = [];
  scene = empty_scene;
}

abbrev set_up : OscReceiver (List Arg) (List Ptr)
set_up = record listening { is_running = false }

abbrev not_set_up : OscReceiver (List Arg) (List Ptr)
not_set_up = record set_up { server_thread = null }

setup-not_set_up : setup small_server 9990 not_set_up ≡ done (set_up, true)
unfolding setup
setup-not_set_up = refl

-- Notes who was asked; no object handles the message, and the callback does.
abbrev none_handles : ReceivedMessage → MessageSource → Handler (List Arg × List Ptr)
none_handles msg source p address (w, seen) = ((w, p ∷ seen), false)

abbrev last_handles :
    ReceivedMessage → MessageSource → List Arg × List Ptr → (List Arg × List Ptr) × Bool
last_handles msg source (w, seen) = ((w, 99 ∷ seen), true)

abbrev ping : ReceivedMessage
ping = record { address_pattern = codes "/ping"; message = 1 }

two_objects : VisitsAll plain_store (2 ∷ 3 ∷ []) (2 ∷ 3 ∷ [])
unfolding make_object
two_objects = more refl (visit no_more) (more refl (visit no_more) no_more)

process_message-offer_example :
    process_message list_reader none_handles last_handles 5 ping (record { address = 1 }) listening
    ≡ some (record listening { scene = record empty_scene { user = 99 ∷ 3 ∷ 2 ∷ [] } }, true)
unfolding offer process_osc_message
process_message-offer_example =
    process_message-offer list_reader none_handles last_handles 5 ping (record { address = 1 })
      listening refl two_objects (omega arith)

abbrev pings : List Arrival
pings =
    record { path = codes "/ping"; message = 1 } ∷ record { path = codes "/pong"; message = 2 } ∷ []

abbrev deaf : OscReceiver (List Arg) (List Ptr)
deaf = record listening { ignore_messages = true }

abbrev Run :
    OscReceiver (List Arg) (List Ptr) → List Event → OscReceiver (List Arg) (List Ptr) → Type 0
Run = Runs list_reader small_server none_handles last_handles 5

-- A receiver with an object is set up and polled, and a message comes while its thread is started;
-- another poll only warns.
abbrev session : List Event
session =
    called (sets_up 9990)
    ∷ called (adds 2)
    ∷ polled
    ∷ called starts
    ∷ came (record { path = codes "/ping"; message = 1 })
    ∷ polled
    ∷ called stops
    ∷ []

abbrev running_already : Channel × Text
running_already = warning (
    codes "OscReceiver: you don't need to handle messages manually "
    ++ codes "when the thread is already running")

abbrev session_end : OscReceiver (List Arg) (List Ptr)
session_end = record {
  osc_root_address = [];
  server_thread = 8;
  is_multicast = false;
  is_running = false;
  ignore_messages = false;
  objects = 2 ∷ [];
  world = [];
  scene = record { store = plain_store; user = 99 ∷ 2 ∷ []; console = running_already ∷ [] };
}

session_runs : Run new_receiver session session_end
unfolding make_receiver setup start stop add_osc_object call handle_messages message_cb receive
    process_osc make_object
session_runs = calls (sets_up 9990) (
    calls (adds 2) (
      polls 0 0 refl (
        calls starts (
          comes (record { path = codes "/ping"; message = 1 }) true refl refl
            (polls 0 0 refl (calls stops stays))))))

Runs-IsConsistent_example : IsConsistent (List Arg) (List Ptr) session_end
Runs-IsConsistent_example =
    Runs-IsConsistent list_reader small_server none_handles last_handles 5 [] [] empty_scene
      session_runs

-- While messages are ignored one comes, and the program polls.
abbrev deaf_end : OscReceiver (List Arg) (List Ptr)
deaf_end = record deaf { scene = record empty_scene { console = running_already ∷ [] } }

deaf_runs : Run deaf (came (record { path = codes "/ping"; message = 1 }) ∷ polled ∷ []) deaf_end
unfolding message_cb handle_messages receive
deaf_runs =
    comes (record { path = codes "/ping"; message = 1 }) false refl refl (polls 0 0 refl stays)

Runs-ignored_example : (deaf_end.scene.user ≡ deaf.scene.user) × (deaf_end.ignore_messages ≡ true)
Runs-ignored_example =
    Runs-ignored list_reader small_server none_handles last_handles 5 deaf_runs refl (tt, (tt, tt))
