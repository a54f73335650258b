-- ===== src/Objects/Dispatch.antt =====
-- OscObject::processOsc. The virtual processOscMessage, for the message at hand, is the parameter
-- `handle`: it sees the object and its root address, works on a state of its own, and attaches or
-- removes no object.
use lopack.Prelude.{
  ℕ, zero, suc, Bool, true, false, [], ◌∷◌, ◌++◌, Option, none, some, get_elem?, ◌==◌,
}
use lopack.Prelude.Text.{Text, codes}
use lopack.Liblo.{Ptr, null, update}
use lopack.Log.{Console, warning}
use lopack.Objects.Graph.{OscObject, erase_at}

abbrev pub Handler : Type 0 → Type 0
Handler S = Ptr → Text → S → S × Bool

pub record World (S : Type 0) : Type 0 where
  pub store : Ptr → OscObject
  pub user : S
  pub console : Console

module _ {S : Type 0} where
  -- `m_objects.erase(iter)` and the warning
  unfoldable pub erase_null : Ptr → ℕ → World S → World S
  erase_null p i w = record w {
    store = update w.store p (record (w.store p) { objects = erase_at i (w.store p).objects });
    console = w.console ++ warning (codes "OscObject: removed NULL object") ∷ [];
  }

module _ {S : Type 0} (handle : Handler S) where
  unfoldable pub process_osc_message : Ptr → World S → World S × Bool
  process_osc_message p w =
      let (user, handled) = handle p (w.store p).osc_root_address w.user in
      (record w { user = user }, handled)

  -- Go on with `next` unless the message was handled.
  abbrev pub unless_handled :
      Option (World S × Bool) → (World S → Option (World S × Bool)) → Option (World S × Bool)
  unless_handled none next = none
  unless_handled (some (w, true)) next = some (w, true)
  unless_handled (some (w, false)) next = next w

  -- The loop of processOsc of the object `p`, its iterator at position `i`; `none` is fuel that ran
  -- out.
  unfoldable pub scan : ℕ → Ptr → ℕ → World S → Option (World S × Bool)
  unfolding process_osc_message erase_null
  scan zero p i w = none
  scan (suc fuel) p i w = elim (get_elem? (w.store p).objects i) [
    | none ↦ some (process_osc_message p w)
    | some q ↦ elim (q == null) [
      | true ↦ scan fuel p i (erase_null p i w)
      | false ↦ unless_handled (scan fuel q 0 w) (scan fuel p (suc i))
    ]
  ]

  unfoldable pub process_osc : ℕ → Ptr → World S → Option (World S × Bool)
  unfolding scan
  process_osc fuel p w = scan fuel p 0 w
