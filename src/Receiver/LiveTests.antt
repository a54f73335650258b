-- ===== src/Receiver/LiveTests.antt =====
-- Examples: a receiver at 1 with the objects 2 and 3.
use lopack.Prelude.{
  ℕ, zero, suc, ◌==◌, if◌then◌else◌, Bool, true, false, List, [], ◌∷◌, ◌≡◌, refl, arith, All,
}
use lopack.Prelude.Text.{codes}
use lopack.Liblo.{Ptr, update}
use lopack.Objects.Graph.{OscObject}
use lopack.Objects.Attach.{removes_all}
use lopack.Objects.Dispatch.{World}
use lopack.Objects.Cycles.{Descends}
use lopack.Objects.Reentrant.{Change, appended, cleared, ended, broken, dispatch}
use lopack.Objects.Ends.{EndsWith}
use lopack.Receiver.Reentrant.{
  calls, attaches, detaches, LiveCallback, acts, call_back_live, offer_loop, process_message_live,
}
use lopack.Objects.Clean.{NoNulls}
use lopack.Receiver.Twin.{process_message_live-dispatch}
use lopack.Receiver.Live.{Allows, process_message_live-ends, leaves, offer_loop-disturbed}

abbrev stage : Ptr → OscObject
stage (suc zero) = record { osc_root_address = []; objects = 2 ∷ 3 ∷ [] }
stage _ = record { osc_root_address = codes "/object"; objects = [] }

abbrev stage_world : World (List Ptr)
stage_world = record { store = stage; user = []; console = [] }

abbrev stage_rank : Ptr → ℕ
stage_rank (suc zero) = 1
stage_rank _ = 0

stage-Descends : Descends stage stage_rank
stage-Descends zero = tt
stage-Descends (suc zero) = ((refl, omega arith), ((refl, omega arith), tt))
stage-Descends (suc (suc n)) = tt

-- Object 2 empties itself, and the receiver attaches object 5 to itself and handles the message.
abbrev helpful : LiveCallback (List Ptr)
helpful (suc zero) w = (1 ∷ w.user, attaches 5 true ∷ [], true)
helpful (suc (suc zero)) w =
    (2 ∷ w.user, calls (record { target = 2; call = removes_all; moves = false }) ∷ [], false)
helpful p w = (p ∷ w.user, [], false)

helpful-Allows : (p : Ptr) (v : World (List Ptr)) → All (Allows 1 stage_rank p) (helpful p v).1
helpful-Allows zero v = tt
helpful-Allows (suc zero) v = ((omega arith, λ _. omega arith), tt)
helpful-Allows (suc (suc zero)) v = ((omega arith, tt), tt)
helpful-Allows (suc (suc (suc n))) v = tt

process_message_live-ends_example :
    (v : World (List Ptr)) × (b : Bool) × (cs : List Change) × EndsWith
      (λ fuel. process_message_live 1 helpful false fuel stage_world)
      v
      b
      cs
    × Descends v.store stage_rank
process_message_live-ends_example =
    process_message_live-ends 1 stage_rank helpful false stage_world helpful-Allows stage-Descends

helped :
    process_message_live 1 helpful false 5 stage_world
    ≡ ended
        (record {
          store =
              update
                (update stage 2 (stage 2))
                1
                (record { osc_root_address = []; objects = 2 ∷ 3 ∷ 5 ∷ [] });
          user = 1 ∷ 3 ∷ 2 ∷ [];
          console = [];
        })
        true
        (cleared 2 ∷ appended 1 true ∷ [])
unfolding process_message_live acts
helped = refl

-- Object 2 leaves the receiver and does not handle the message.
abbrev leaving : LiveCallback (List Ptr)
leaving p w = (p ∷ w.user, detaches 2 ∷ [], false)

offer_loop-disturbed_example : offer_loop 1 leaving 9 0 stage_world ≡ broken
offer_loop-disturbed_example =
    offer_loop-disturbed 1 leaving 7 0 stage_world 2 (detaches 2) refl refl refl refl leaves

stage-NoNulls : NoNulls stage
stage-NoNulls zero = tt
stage-NoNulls (suc zero) = (λ e. ground (arith, e), (λ e. ground (arith, e), tt))
stage-NoNulls (suc (suc n)) = tt

process_message_live-dispatch_example :
    process_message_live 1 helpful false 9 stage_world
    ≡ dispatch (call_back_live 1 helpful) 9 1 0 stage_world
process_message_live-dispatch_example =
    process_message_live-dispatch 1 helpful 9 stage_world stage-NoNulls

-- Object 2 attaches object 3 to the receiver once more and does not handle the message.
abbrev crowding : (moves : Bool) → LiveCallback (List Ptr)
crowding moves p w =
    if p == 2 then (p ∷ w.user, attaches 3 moves ∷ [], false) else (p ∷ w.user, [], false)

-- With capacity to spare the loop goes on, and comes to the new entry.
roomy :
    offer_loop 1 (crowding false) 9 0 stage_world
    ≡ ended
        (record {
          store = update stage 1 (record { osc_root_address = []; objects = 2 ∷ 3 ∷ 3 ∷ [] });
          user = 1 ∷ 3 ∷ 3 ∷ 2 ∷ [];
          console = [];
        })
        false
        (appended 1 false ∷ [])
unfolding offer_loop acts
roomy = refl

crowded : offer_loop 1 (crowding true) 9 0 stage_world ≡ broken
unfolding offer_loop acts
crowded = refl
