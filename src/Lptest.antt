-- ===== src/Lptest.antt =====
-- The test program: TestReceiver of src/lptest/TestReceiver.h, and Object, testTimeTag, testSender and
-- main of src/lptest/main.cpp.
pub mod Programs
pub mod Tags
pub mod Parsing
pub mod Listener
pub mod TestSender
pub mod Callbacks
pub mod Handling
pub mod Intake
pub mod Polling
pub mod EndToEnd
pub mod Main
pub mod Phases
pub mod Whole
mod Tests
mod RunTests
