-- ===== src/Lib.antt =====
-- A verification library for lopack, the C++ wrapper of liblo (Open Sound Control messages).
--
-- The program. An OscSender builds liblo messages and nested bundles and transmits them. An
-- OscReceiver holds a liblo server thread, whose callback wraps each message that arrives in a
-- ReceivedMessage and a MessageSource and hands it to the attached OscObjects, which may hold
-- OscObjects of their own, and last to its own `process`. The test program lptest streams test
-- messages from a sender to a receiver and parses them.
--
-- The files, and the code that they model:
--  - Prelude, Prelude/*: shared notation, lists, text as bytes, printing of numbers, 32- and
--    64-bit two's complement.
--  - Outcome: how a call ends: normally, with an exception of src/lopack/OscSender.h, OscTypes.h
--    or OscReceiver.h, or in undefined behaviour.
--  - Types, Types/*: the value types of src/lopack/OscTypes.h; the byte order of MidiMessage, and
--    the time arithmetic of TimeTag in src/lopack/OscTypes.cpp.
--  - Liblo, Liblo/*: liblo as the code calls it. It is not part of the repository, so `Liblo` is a
--    record of its functions over a state of its own, and `Contract` states the documented
--    behaviour that the theorems use. Liblo/Reference is a small table-backed instance that meets
--    the contract, and Liblo/Addresses states what is assumed of liblo's addresses. Liblo/Packets
--    says which objects of liblo's hold a packet, Liblo/Members and Liblo/Live which are live, and
--    Liblo/Kept which calls leave them live.
--  - Sender, Sender/*: src/lopack/OscSender.h and OscSender.cpp. Sender/State has the members,
--    setup, send and clear; Sender/Build beginMessage, the add functions, endMessage and the
--    bundles; Sender/Stream the operator<< overloads; Sender/Command one call of any member
--    function. The other files prove things about them: Sender/Protocol is an abstract automaton
--    of the calls, Sender/Finish says how one ends what it began, Sender/Lost what is lost,
--    Sender/Owned is about the addresses that a sender makes and frees, Sender/Held and
--    Sender/Reachable about the messages and bundles that it points to, and Sender/Closed follows
--    one bundle through liblo.
--  - Received, Received/*: ReceivedMessage and MessageSource of src/lopack/OscTypes.h and
--    OscTypes.cpp. Received/Read has the accessors and Received/Try the functions that try to
--    convert, and Received/Print those that print.
--  - Log: src/lopack/Log.h, as the list of the lines written.
--  - Objects, Objects/*: src/lopack/OscObject.h and OscObject.cpp. Objects are in a store that
--    maps a pointer to an object; Objects/Dispatch has processOsc for callbacks that leave the
--    objects as they are, and Objects/Reentrant for callbacks that attach and remove objects while
--    the loops are on their way. There each loop's iterator is watched: it is invalid after an
--    erase at or before its place, after a clear, and after a push_back to its vector that has to
--    allocate its memory anew. When one has to is not computed: each call that attaches carries a
--    flag that says so, and whatever does not mention the flag holds for either value.
--  - Receiver, Receiver/*: src/lopack/OscReceiver.h and OscReceiver.cpp. Receiver/State has
--    set-up, thread control and the getters, Receiver/Incoming processMessage, messageCB and
--    handleMessages, Receiver/Threads the runs in which the server thread's callbacks come between
--    the program's calls. Receiver/Reentrant is processMessage again, over Objects/Reentrant, with
--    callbacks that attach and remove objects, of the receiver too. Receiver/Leaks counts the
--    references to liblo's messages.
--  - Roundtrip: from a sender's stream to a receiver's accessors, over what the network does.
--  - Lptest, Lptest/*: the test program, TestReceiver of src/lptest/TestReceiver.h and Object,
--    testTimeTag, testSender and main of src/lptest/main.cpp. Lptest/Programs has what the
--    callbacks show, Lptest/Callbacks the callbacks as the receiver calls them and the polling
--    loop, Lptest/TestSender testSender, and Lptest/Main the rest. The other files prove things
--    about them: Lptest/Intake and Lptest/Polling about the receiver, Lptest/EndToEnd about what
--    goes from testSender to it, and Lptest/Phases and Lptest/Whole about main.
--
-- How state and values are represented. A call takes the members with liblo's state and returns
-- them. Pointers are natural numbers, with 0 for NULL. A fixed-width integer is its bit pattern, a
-- float or a double its IEEE bit pattern, and text a list of bytes. The vector of bundles is a list
-- whose head is the vector's back; other vectors are in their own order.
--
-- Parameters. liblo's functions for sending, for reading and for the server (`Liblo`, `Reader`,
-- `Server`), the conversions between number types (`Casts`, where C++ leaves one out of range
-- undefined, so does the model), the doubles and the clock of TimeTag (`Doubles`, `Readings`),
-- and the virtual functions that the program supplies. What is assumed of them is a hypothesis
-- by name (`Contract`, `Addresses`, `Contents`, `Counts`, `IsAccurate`; `Brings`, that the
-- network brings what was transmitted), and the examples have instances of them. An exception
-- that leaves a callback of the test program is noted as a fault.
--
-- Fuel. `process_osc` runs on fuel, since objects can be attached in a cycle. The number of visits
-- is enough, and where there is no cycle that number exists. `dispatch` of Objects/Reentrant runs
-- on fuel too, and there is enough of it where callbacks keep to the objects below. The polling
-- loop runs on a bound on its rounds; where a message that ends it comes in some round, two rounds
-- more are enough. `bundle_free_recursive` of the reference library runs on one more than the
-- number of its bundles, each of which is freed once. The decimal printer runs on one more than the
-- number it prints, which has no more digits than that.
--
-- Not modelled. liblo itself and the network; data races: a callback of the server thread and a
-- call of the program are whole steps, one before the other, where the code has no lock; objects
-- that are destroyed while a message is processed; the manipulators other than std::endl that Log.h
-- takes. In lptest what is streamed to std::cout is kept as values, not as characters, and the
-- fixed texts that main and testTimeTag print are left out. What happens while main sleeps is a
-- parameter (`Surroundings`).
pub mod Prelude
pub mod Types
pub mod Liblo
pub mod Outcome
pub mod Sender
pub mod Received
pub mod Log
pub mod Objects
pub mod Receiver
pub mod Roundtrip
pub mod Lptest
