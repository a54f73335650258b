-- ===== src/Liblo/Reference.antt =====
-- A small liblo that meets the contract. The examples run on it, and it shows that the contract can
-- be met; nothing is proved of lopack through it.
mod Table
mod State
mod Free
mod Laws
mod Live
pub use State.{World, start}
pub use Laws.*
pub use Live.*
