-- ===== src/Liblo/Packets.antt =====
-- An OSC packet as a tree of values, and when the objects of a heap hold one.
use lopack.Prelude.{List, [], ◌∷◌, ◌++◌, some, ◌≡◌}
use lopack.Prelude.Text.{Text}
use lopack.Types.{TimeTag}
use lopack.Liblo.Store.{Ptr, Arg, Element, message_ref, bundle_ref, Heap}

mutual
  pub data Packet : Type 0 where
    message : Text → List Arg → Packet
    bundle : TimeTag → Packets → Packet

  pub data Packets : Type 0 where
    end : Packets
    next : Packet → Packets → Packets

-- In heap `h` the element `e` stands for a packet, made of the messages `ms` and the bundles `bs`.
mutual
  pub data Holds (h : Heap) : Element → Packet → List Ptr → List Ptr → Type 0 where
    held_message :
        {path : Text} {m : Ptr} {args : List Arg}
        → h.messages m ≡ some args
        → Holds h (message_ref path m) (message path args) (m ∷ []) []
    held_bundle :
        {b : Ptr} {t : TimeTag} {es : List Element} {ps : Packets} {ms bs : List Ptr}
        → h.bundles b ≡ some (record { tag = t; elements = es })
        → HoldsAll h es ps ms bs
        → Holds h (bundle_ref b) (bundle t ps) ms (b ∷ bs)

  pub data HoldsAll (h : Heap) : List Element → Packets → List Ptr → List Ptr → Type 0 where
    held_end : HoldsAll h [] end [] []
    held_next :
        {e : Element} {es : List Element} {p : Packet} {ps : Packets} {ms ms' bs bs' : List Ptr}
        → Holds h e p ms bs
        → HoldsAll h es ps ms' bs'
        → HoldsAll h (e ∷ es) (next p ps) (ms ++ ms') (bs ++ bs')

-- The messages of a packet, in order.
abbrev mutual
  pub messages_in : Packet → List (Text × List Arg)
  messages_in (message path args) = (path, args) ∷ []
  messages_in (bundle t ps) = messages_in_all ps

  pub messages_in_all : Packets → List (Text × List Arg)
  messages_in_all end = []
  messages_in_all (next p ps) = messages_in p ++ messages_in_all ps

abbrev pub messages_in_each : List Packet → List (Text × List Arg)
messages_in_each [] = []
messages_in_each (p ∷ ps) = messages_in p ++ messages_in_each ps
