-- ===== src/Objects.antt =====
-- src/lopack/OscObject.h and src/lopack/OscObject.cpp: objects that are attached to one another and
-- are offered each message in turn. Objects are shared by pointers, so they stand in a store.
pub mod Graph
pub mod Dispatch
pub mod Order
pub mod Cycles
pub mod Attach
pub mod Reentrant
pub mod Clean
pub mod Ranked
pub mod Ends
pub mod Disturb
mod Tests
