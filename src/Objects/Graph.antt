-- ===== src/Objects/Graph.antt =====
-- The objects, and attaching and removing them.
use lopack.Prelude.{ℕ, zero, suc, List, [], ◌∷◌, ◌++◌, ◌==◌, if◌then◌else◌}
use lopack.Prelude.Text.{Text, codes}
use lopack.Liblo.{Ptr, null}
use lopack.Log.{Console, warning}

pub record OscObject : Type 0 where
  pub osc_root_address : Text
  pub objects : List Ptr

-- OscObject(rootAddress)
unfoldable pub make_object : Text → OscObject
make_object address = record { osc_root_address = address; objects = [] }

-- `find` and `erase`: the first entry that is the given one.
unfoldable pub erase_first : Ptr → List Ptr → List Ptr
erase_first p [] = []
erase_first p (q ∷ qs) = if q == p then qs else q ∷ erase_first p qs

-- `erase` at a position
abbrev pub erase_at : ℕ → List Ptr → List Ptr
erase_at i [] = []
erase_at zero (q ∷ qs) = qs
erase_at (suc i) (q ∷ qs) = q ∷ erase_at i qs

-- Each returns the object after the call and what is logged.
unfoldable pub add_osc_object : Ptr → OscObject → OscObject × Console
add_osc_object object o =
    if object == null
    then (o, warning (codes "OscObject: cannot add NULL object") ∷ [])
    else (record o { objects = o.objects ++ object ∷ [] }, [])

unfoldable pub remove_osc_object : Ptr → OscObject → OscObject × Console
unfolding erase_first
remove_osc_object object o =
    if object == null
    then (o, warning (codes "OscObject: cannot remove NULL object") ∷ [])
    else (record o { objects = erase_first object o.objects }, [])

unfoldable pub remove_all_osc_objects : OscObject → OscObject
remove_all_osc_objects o = record o { objects = [] }

unfoldable pub set_osc_root_address : Text → OscObject → OscObject
set_osc_root_address address o = record o { osc_root_address = address }

unfoldable pub prepend_osc_root_address : Text → OscObject → OscObject
prepend_osc_root_address prefix o = record o { osc_root_address = prefix ++ o.osc_root_address }
