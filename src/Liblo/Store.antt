-- ===== src/Liblo/Store.antt =====
-- Pointers, message arguments, and the objects of liblo that they lead to.
use lopack.Prelude.{ℕ, List, Option, ◌==◌, if◌then◌else◌}
use lopack.Prelude.Text.{Text}
use lopack.Types.{MidiMessage, TimeTag}

abbrev pub Ptr : Type 0
Ptr = ℕ

abbrev pub null : Ptr
null = 0

-- An argument of a message, with its OSC type.
pub data Arg : Type 0 where
  true_flag false_flag nil infinitum : Arg
  char int32 int64 float double : ℕ → Arg
  string symbol : Text → Arg
  midi : MidiMessage → Arg
  timetag : TimeTag → Arg
  blob : List ℕ → Arg

-- What a bundle refers to: a message under its address pattern, or another bundle.
pub data Element : Type 0 where
  message_ref : Text → Ptr → Element
  bundle_ref : Ptr → Element

pub record Bundle : Type 0 where
  pub tag : TimeTag
  pub elements : List Element

-- The live messages, bundles and blobs.
pub record Heap : Type 0 where
  pub messages : Ptr → Option (List Arg)
  pub bundles : Ptr → Option Bundle
  pub blobs : Ptr → Option (List ℕ)

-- One transmission: to which address, what, and the objects as they stood at that time.
pub record Sent : Type 0 where
  pub to : Ptr
  pub root : Element
  pub heap : Heap

abbrev pub update {ℓ} : {A : Type ℓ} → (Ptr → A) → Ptr → A → Ptr → A
update f p a q = if q == p then a else f q
