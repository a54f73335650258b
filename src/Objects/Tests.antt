-- ===== src/Objects/Tests.antt =====
-- Examples: object 1 holds 2 and 3, object 3 holds 2 again, and object 4 holds itself.
use lopack.Prelude.{
  ℕ, zero, suc, Bool, true, false, List, [], ◌∷◌, none, some, ◌≡◌, refl, ◌≤◌, ◌<◌, arith, length,
  ◌==◌,
}
use lopack.Prelude.Text.{codes}
use lopack.Liblo.{Ptr, update}
use lopack.Objects.Graph.{OscObject}
use lopack.Objects.Dispatch.{Handler, World, process_osc_message, process_osc}
use lopack.Objects.Order.{Visits, visit, no_more, more, offer, process_osc-offer}
use lopack.Objects.Cycles.{Descends, process_osc_total, process_osc_self}
use lopack.Objects.Attach.{adds, removes, removes_all}
use lopack.Objects.Reentrant.{
  Callback, Change, appended, cleared, ended, broken, edits, call_back, dispatch,
}
use lopack.Objects.Ranked.{Keeps}
use lopack.Objects.Ends.{EndsWith, dispatch-ends}
use lopack.Objects.Disturb.{detaches_itself, dispatch-disturbed}

abbrev family : Ptr → OscObject
family (suc zero) = record { osc_root_address = codes "/one"; objects = 2 ∷ 3 ∷ [] }
family (suc (suc (suc zero))) = record { osc_root_address = codes "/three"; objects = 2 ∷ [] }
family (suc (suc (suc (suc zero)))) = record { osc_root_address = codes "/four"; objects = 4 ∷ [] }
family _ = record { osc_root_address = codes "/two"; objects = [] }

abbrev family_world : World (List Ptr)
family_world = record { store = family; user = []; console = [] }

-- Notes who was asked; object 3 handles the message.
abbrev three_handles : Handler (List Ptr)
three_handles p address seen = (p ∷ seen, p == 3)

family_order : Visits family 1 (2 ∷ 2 ∷ 3 ∷ 1 ∷ [])
family_order =
    visit
      (more refl (visit no_more) (more refl (visit (more refl (visit no_more) no_more)) no_more))

process_osc-offer_example :
    process_osc three_handles 9 1 family_world
    ≡ some (record family_world { user = 3 ∷ 2 ∷ 2 ∷ [] }, true)
unfolding offer process_osc_message
process_osc-offer_example =
    process_osc-offer three_handles family 9 1 family_world family_order refl (omega arith)

abbrev acyclic : Ptr → OscObject
acyclic (suc zero) = family 1
acyclic (suc (suc (suc zero))) = family 3
acyclic _ = family 2

abbrev acyclic_world : World (List Ptr)
acyclic_world = record family_world { store = acyclic }

abbrev rank : Ptr → ℕ
rank (suc zero) = 2
rank (suc (suc (suc zero))) = 1
rank _ = 0

acyclic-Descends : Descends acyclic rank
acyclic-Descends zero = tt
acyclic-Descends (suc zero) = ((refl, omega arith), ((refl, omega arith), tt))
acyclic-Descends (suc (suc zero)) = tt
acyclic-Descends (suc (suc (suc zero))) = ((refl, omega arith), tt)
acyclic-Descends (suc (suc (suc (suc n)))) = tt

process_osc_total_example :
    (l : List Ptr) × Visits acyclic 1 l
    × ((fuel : ℕ)
        → length l ≤ fuel
        → process_osc three_handles fuel 1 acyclic_world
          ≡ some (offer three_handles l acyclic_world))
process_osc_total_example = process_osc_total three_handles rank 1 acyclic_world acyclic-Descends

process_osc_self_example : process_osc three_handles 50 4 family_world ≡ none
process_osc_self_example =
    process_osc_self three_handles 50 4 family_world [] refl (λ e. ground (arith, e))

-- Object 3 attaches object 2 once more, and object 2 forgets all that is attached to it.
abbrev growing : Callback (List Ptr)
growing (suc (suc (suc zero))) w =
    (3 ∷ w.user, record { target = 3; call = adds 2; moves = true } ∷ [], false)
growing (suc (suc zero)) w =
    (2 ∷ w.user, record { target = 2; call = removes_all; moves = false } ∷ [], false)
growing p w = (p ∷ w.user, [], false)

growing-Keeps : (q : Ptr) (v : World (List Ptr)) → Keeps rank q (growing q v).1
growing-Keeps zero v = tt
growing-Keeps (suc zero) v = tt
growing-Keeps (suc (suc zero)) v = ((omega arith, tt), tt)
growing-Keeps (suc (suc (suc zero))) v = ((omega arith, λ _. omega arith), tt)
growing-Keeps (suc (suc (suc (suc n)))) v = tt

dispatch-ends_example :
    (v : World (List Ptr)) × (b : Bool) × (cs : List Change) × EndsWith
      (λ fuel. dispatch (call_back growing) fuel 1 0 acyclic_world)
      v
      b
      cs
    × ((q : Ptr) → rank 1 < rank q → v.store q ≡ acyclic q)
    × Descends v.store rank
dispatch-ends_example = dispatch-ends growing rank 1 acyclic_world growing-Keeps acyclic-Descends

grown :
    dispatch (call_back growing) 9 1 0 acyclic_world
    ≡ ended
        (record {
          store =
              update
                (update (update acyclic 2 (acyclic 2)) 2 (acyclic 2))
                3
                (record (acyclic 3) { objects = 2 ∷ 2 ∷ [] });
          user = 1 ∷ 3 ∷ 2 ∷ 2 ∷ [];
          console = [];
        })
        false
        (cleared 2 ∷ cleared 2 ∷ appended 3 true ∷ [])
unfolding dispatch call_back edits
grown = refl

-- Object 2 takes itself away from object 1 and does not handle the message.
abbrev leaving : Callback (List Ptr)
leaving p w = (p ∷ w.user, record { target = 1; call = removes 2; moves = false } ∷ [], false)

dispatch-disturbed_example : dispatch (call_back leaving) 9 1 0 acyclic_world ≡ broken
dispatch-disturbed_example =
    dispatch-disturbed leaving 7 1 2 0 acyclic_world false (removes 2) refl refl refl refl
      detaches_itself
