-- ===== src/Liblo.antt =====
-- The liblo library as lopack calls it. Its code is not part of the repository: `Liblo` is the list
-- of the functions called, over an abstract state of its own, and Liblo/Contract.antt states what
-- its documentation says of them. A pointer is a number, and 0 is NULL.
mod Store
pub mod Updates
pub mod Members
pub mod Contract
pub mod Addresses
pub mod Packets
pub mod Live
pub mod Kept
pub mod Reference
pub use Store.*
use lopack.Prelude.{ℕ, List}
use lopack.Prelude.Text.{Text}
use lopack.Types.{MidiMessage, TimeTag}

pub record Liblo : Type 1 where
  -- everything that liblo and the network keep
  pub World : Type 0
  pub address_new : (host port : Text) → World → World × Ptr
  pub address_free : Ptr → World → World
  pub address_get_hostname : Ptr → World → Text
  pub address_get_port : Ptr → World → Text
  pub address_get_url : Ptr → World → Text
  pub message_new : World → World × Ptr
  pub message_free : Ptr → World → World
  -- lo_message_add_true, lo_message_add_int32 and so on, by the constructor
  pub message_add : Ptr → Arg → World → World
  pub blob_new : (size : ℕ) → List ℕ → World → World × Ptr
  pub message_add_blob : Ptr → Ptr → World → World
  pub blob_free : Ptr → World → World
  pub bundle_new : TimeTag → World → World × Ptr
  pub bundle_add_message : Ptr → Text → Ptr → World → World
  pub bundle_add_bundle : Ptr → Ptr → World → World
  pub bundle_free_recursive : Ptr → World → World
  pub send_message : Ptr → Text → Ptr → World → World
  pub send_bundle : Ptr → Ptr → World → World
  pub message_pp : Ptr → World → World
  pub bundle_pp : Ptr → World → World
