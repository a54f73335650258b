-- ===== src/Liblo/Reference/State.antt =====
-- The reference library's state, and the heap that it stands for.
use lopack.Prelude.{ℕ, List, []}
use lopack.Prelude.Text.{Text}
use lopack.Liblo.Store.{Arg, Bundle, Heap, Sent}
use lopack.Liblo.Reference.Table.{Table, empty, lookup}

pub record World : Type 0 where
  pub addresses : Table (Text × Text)
  pub messages : Table (List Arg)
  pub bundles : Table Bundle
  pub blobs : Table (List ℕ)
  pub sent : List Sent

abbrev pub start : World
start = record { addresses = empty; messages = empty; bundles = empty; blobs = empty; sent = [] }

abbrev pub heap_of : World → Heap
heap_of w = record {
  messages = lookup w.messages;
  bundles = lookup w.bundles;
  blobs = lookup w.blobs;
}
