-- ===== src/Receiver.antt =====
-- src/lopack/OscReceiver.h and src/lopack/OscReceiver.cpp: the server thread's life, the attached
-- objects and the incoming messages. liblo's server functions are the parameter `Server`. A callback
-- of the server's own thread and a call of the program are whole steps, one before the other.
pub mod State
pub mod Incoming
pub mod Life
pub mod Messages
pub mod Threads
pub mod Silence
pub mod Leaks
pub mod Reentrant
pub mod Live
pub mod Twin
mod LeakTests
mod LiveTests
mod Tests
