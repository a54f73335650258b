-- ===== src/Received/Contract.antt =====
-- What the class relies on in liblo: that the reading functions agree on a message's arguments.
use lopack.Prelude.{
  ℕ, List, [], ◌∷◌, none, some, ◌≡◌, Option, map, length, get_elem?, get_or, ltb, ◌<◌, refl, arith,
  if◌then◌else◌, true, false, not, Bool, zero, suc, subst,
}
use mathlib.Core.Option.{some-injective}
use lopack.Outcome.{returned, raised, arg_exception}
use lopack.Liblo.{Ptr, Arg}
use lopack.Received.Reader.{Reader}
use lopack.Received.Read.{ReceivedMessage, type_tag, arg}

-- The type tag of an argument.
unfoldable pub tag : Arg → ℕ
tag Arg.true_flag = b'T'
tag Arg.false_flag = b'F'
tag Arg.nil = b'N'
tag Arg.infinitum = b'I'
tag (Arg.char v) = b'c'
tag (Arg.int32 v) = b'i'
tag (Arg.int64 v) = b'h'
tag (Arg.float v) = b'f'
tag (Arg.double v) = b'd'
tag (Arg.string v) = b's'
tag (Arg.symbol v) = b'S'
tag (Arg.midi v) = b'm'
tag (Arg.timetag v) = b't'
tag (Arg.blob v) = b'b'

-- All that there is of these is the tag.
abbrev pub has_data : Arg → Bool
has_data Arg.true_flag = false
has_data Arg.false_flag = false
has_data Arg.nil = false
has_data Arg.infinitum = false
has_data _ = true

module _ {W : Type 0} (lo : Reader W) where
  -- The union's member that the tag names holds the value.
  abbrev HasValue : lo.LoArg → Arg → Type 0
  HasValue x (Arg.char v) = lo.c x ≡ v
  HasValue x (Arg.int32 v) = lo.i x ≡ v
  HasValue x (Arg.int64 v) = lo.h x ≡ v
  HasValue x (Arg.float v) = lo.f x ≡ v
  HasValue x (Arg.double v) = lo.d x ≡ v
  HasValue x (Arg.string v) = lo.s x ≡ v
  HasValue x (Arg.symbol v) = lo.sym x ≡ v
  HasValue x (Arg.midi v) = lo.m x ≡ v
  HasValue x (Arg.timetag v) = lo.t x ≡ v
  HasValue x (Arg.blob v) = (lo.blob_dataptr x ≡ v) × (lo.blob_datasize x ≡ length v)
  HasValue x _ = Unit

  -- The pointer is NULL for an argument without data, and leads to the value of any other.
  abbrev pub Represents : lo.LoArg → Arg → Type 0
  Represents x a = (lo.is_null x ≡ not (has_data a)) × HasValue x a

  abbrev pub RepresentsAll : List lo.LoArg → List Arg → Type 0
  RepresentsAll [] [] = Unit
  RepresentsAll [] (a ∷ as') = ⊥
  RepresentsAll (x ∷ xs) [] = ⊥
  RepresentsAll (x ∷ xs) (a ∷ as') = Represents x a × RepresentsAll xs as'

  -- The message holds `args`: its types, its count and its array say so.
  pub record Contents (p : Ptr) (w : W) (args : List Arg) : Type 0 where
    pub types : lo.message_get_types p w ≡ map tag args
    pub count : lo.message_get_argc p w ≡ length args
    pub members : RepresentsAll (lo.message_get_argv p w) args

  -- The tag of the argument at an index, or `*`.
  abbrev pub tag_of : Option Arg → ℕ
  tag_of none = b'*'
  tag_of (some a) = tag a

  tag_at :
      (args : List Arg) (at : ℕ)
      → (if ltb at (length args) then get_or (map tag args) at 0 else b'*')
        ≡ tag_of (get_elem? args at)
  tag_at [] at = ground arith
  tag_at (a ∷ args) zero = ground arith
  tag_at (a ∷ args) (suc at) = ground (arith, tag_at args at)

  member_at :
      (xs : List lo.LoArg) (args : List Arg) (at : ℕ) (a : Arg)
      → RepresentsAll xs args
      → get_elem? args at ≡ some a
      → (x : lo.LoArg) × (get_elem? xs at ≡ some x) × Represents x a × (at < length args)
  member_at [] [] at a r e = cc
  member_at [] (b ∷ args) at a r e = absurd r
  member_at (x ∷ xs) [] at a r e = absurd r
  member_at (x ∷ xs) (b ∷ args) zero a r e =
      (x, refl, subst (Represents x) (some-injective b a e) r.0, omega arith)
  member_at (x ∷ xs) (b ∷ args) (suc at) a r e =
      let (y, got, holds, below) = member_at xs args at a r.1 e in (y, got, holds, omega arith)

  -- The tag that the class sees.
  pub type_tag-Contents :
      (msg : ReceivedMessage) (w : W) (args : List Arg) (at : ℕ)
      → Contents msg.message w args
      → type_tag lo at msg w ≡ tag_of (get_elem? args at)
  unfolding type_tag
  type_tag-Contents msg w args at c = rw (c.types, c.count) (tag_at args at)

  -- The argument that the class reads.
  pub arg-Contents :
      (msg : ReceivedMessage) (w : W) (args : List Arg) (at : ℕ) (a : Arg)
      → Contents msg.message w args
      → get_elem? args at ≡ some a
      → (x : lo.LoArg) × (arg lo at msg w ≡ returned x) × Represents x a
  unfolding arg
  arg-Contents msg w args at a c e =
      let (x, got, holds, below) =
        member_at (lo.message_get_argv msg.message w) args at a c.members e in
      (x, ground (arith, got, c.count), holds)

  out_of_range :
      (args : List Arg) (at : ℕ) → get_elem? args at ≡ none → ltb at (length args) ≡ false
  out_of_range [] at e = ground arith
  out_of_range (a ∷ args) zero e = cc
  out_of_range (a ∷ args) (suc at) e = ground (arith, out_of_range args at e)

  pub arg_out_of_range :
      (msg : ReceivedMessage) (w : W) (args : List Arg) (at : ℕ)
      → Contents msg.message w args
      → get_elem? args at ≡ none
      → arg lo at msg w ≡ raised arg_exception
  unfolding arg
  arg_out_of_range msg w args at c e = rw (c.count, out_of_range args at e)
