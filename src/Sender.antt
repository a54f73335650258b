-- ===== src/Sender.antt =====
-- src/lopack/OscSender.h and src/lopack/OscSender.cpp: the members of an OscSender, and a command for each
-- member function. The member m_bundles is a list whose head is the vector's back. The state has
-- liblo's world in it, since the members point into it.
mod State
mod Build
pub mod Stream
pub mod Command
pub mod Exceptions
pub mod Safety
pub mod Held
pub mod Reachable
pub mod Protocol
pub mod Finish
pub mod Script
pub mod Frame
pub mod Arguments
pub mod Emit
pub mod Nested
pub mod Closed
pub mod Delivery
pub mod Scope
pub mod Sequence
pub mod Lost
pub mod Addresses
pub mod Owned
mod OwnedTests
mod Tests
pub use State.*
pub use Build.*
