-- ===== src/Objects/Attach.antt =====
-- Attaching and removing objects.
use lopack.Prelude.{
  ℕ, suc, List, [], ◌∷◌, ◌++◌, ◌≡◌, ◌≢◌, refl, ◌-◌, arith, ◌==◌, All, All-append, if◌then◌else◌,
  Bool-cases, inl, inr, false,
}
use lopack.Prelude.Text.{Text}
use lopack.Liblo.{Ptr, null}
use lopack.Objects.Graph.{
  OscObject, make_object, erase_first, add_osc_object, remove_osc_object, remove_all_osc_objects,
  set_osc_root_address, prepend_osc_root_address,
}

-- The calls that change an object.
pub data Call : Type 0 where
  adds removes : Ptr → Call
  removes_all : Call
  sets prepends : Text → Call

unfoldable pub call : Call → OscObject → OscObject
call (adds p) o = (add_osc_object p o).0
call (removes p) o = (remove_osc_object p o).0
call removes_all o = remove_all_osc_objects o
call (sets t) o = set_osc_root_address t o
call (prepends t) o = prepend_osc_root_address t o

unfoldable calls : List Call → OscObject → OscObject
unfolding call
calls [] o = o
calls (c ∷ cs) o = calls cs (call c o)

abbrev pub HasNoNull : List Ptr → Type 0
HasNoNull = All (λ q. q ≢ null)

pub erase_first-All :
    (P : Ptr → Type 0) (p : Ptr) (qs : List Ptr) → All P qs → All P (erase_first p qs)
unfolding erase_first
erase_first-All P p [] h = tt
erase_first-All P p (q ∷ qs) h = ground (arith, erase_first-All P p qs h.1)

-- What the call attaches, if anything, is in `P`.
abbrev pub Fits : (Ptr → Type 0) → Call → Type 0
Fits P (adds p) = (p == null) ≡ false → P p
Fits P c = Unit

-- What all attached objects satisfy and all that are added too is satisfied after the call.
pub call-All :
    (P : Ptr → Type 0) (c : Call) (o : OscObject)
    → Fits P c
    → All P o.objects
    → All P (call c o).objects
unfolding call add_osc_object remove_osc_object remove_all_osc_objects set_osc_root_address
    prepend_osc_root_address
call-All P (adds p) o fit h = elim (Bool-cases (p == null)) [
  | inl e ↦ rw (e, call) h
  | inr e ↦ rw (e, call) (All-append P o.objects (p ∷ []) h (fit e, tt))
]
call-All P (removes p) o fit h = elim (Bool-cases (p == null)) [
  | inl e ↦ rw (e, call) h
  | inr e ↦ rw (e, call) (erase_first-All P p o.objects h)
]
call-All P removes_all o fit h = tt
call-All P (sets t) o fit h = h
call-All P (prepends t) o fit h = h

pub call-HasNoNull : (c : Call) (o : OscObject) → HasNoNull o.objects → HasNoNull (call c o).objects
call-HasNoNull (adds p) o h = call-All (λ q. q ≢ null) (adds p) o (λ e z. ground (arith, e, z)) h
call-HasNoNull (removes p) o h = call-All (λ q. q ≢ null) (removes p) o tt h
call-HasNoNull removes_all o h = call-All (λ q. q ≢ null) removes_all o tt h
call-HasNoNull (sets t) o h = call-All (λ q. q ≢ null) (sets t) o tt h
call-HasNoNull (prepends t) o h = call-All (λ q. q ≢ null) (prepends t) o tt h

calls-keep : (cs : List Call) (o : OscObject) → HasNoNull o.objects → HasNoNull (calls cs o).objects
unfolding calls
calls-keep [] o h = h
calls-keep (c ∷ cs) o h = calls-keep cs (call c o) (call-HasNoNull c o h)

make_object-HasNoNull : (t : Text) → HasNoNull (make_object t).objects
unfolding make_object
make_object-HasNoNull t = tt

-- No sequence of calls on a new object attaches NULL to it.
calls-HasNoNull : (t : Text) (cs : List Call) → HasNoNull (calls cs (make_object t)).objects
calls-HasNoNull t cs = calls-keep cs (make_object t) (make_object-HasNoNull t)

count : Ptr → List Ptr → ℕ
count q [] = 0
count q (x ∷ xs) = if x == q then suc (count q xs) else count q xs

count-erase_first :
    (p q : Ptr) (xs : List Ptr)
    → count q (erase_first p xs) ≡ (if p == q then count q xs - 1 else count q xs)
unfolding count erase_first
count-erase_first p q [] = ground arith
count-erase_first p q (x ∷ xs) = ground (arith, count-erase_first p q xs)

-- Removing an object takes one attachment of it away, if there is one, and leaves the number of
-- attachments of every other object as it was; removing NULL changes nothing.
count-remove_osc_object :
    (p q : Ptr) (o : OscObject)
    → (p ≢ null
        → count q (remove_osc_object p o).0.objects
          ≡ (if p == q then count q o.objects - 1 else count q o.objects))
      × ((remove_osc_object null o).0 ≡ o)
unfolding remove_osc_object
count-remove_osc_object p q o = (λ set. ground (arith, count-erase_first p q o.objects), refl)

erase_first-append : (p : Ptr) (xs : List Ptr) → count p xs ≡ 0 → erase_first p (xs ++ p ∷ []) ≡ xs
unfolding count erase_first
erase_first-append p [] e = ground arith
erase_first-append p (x ∷ xs) e = ground (arith, erase_first-append p xs)

-- Attaching an object that is not NULL and not attached yet, and then removing it, restores the
-- object.
remove-add_osc_object :
    (p : Ptr) (o : OscObject)
    → p ≢ null
    → count p o.objects ≡ 0
    → (remove_osc_object p (add_osc_object p o).0).0 ≡ o
unfolding remove_osc_object add_osc_object
remove-add_osc_object p o set e = ground (arith, erase_first-append p o.objects e)
