-- ===== src/Received.antt =====
-- ReceivedMessage and MessageSource of src/lopack/OscTypes.h and src/lopack/OscTypes.cpp: reading an
-- incoming message. liblo's functions are the parameter `Reader`, and Received/Contract.antt says
-- what the class relies on in them.
pub mod Reader
pub mod Read
pub mod Try
pub mod Contract
pub mod Print
pub mod Decode
pub mod Conversion
pub mod Convert
pub mod Signed
pub mod Match
pub mod Example
mod Tests
