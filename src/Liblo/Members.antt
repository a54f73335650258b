-- ===== src/Liblo/Members.antt =====
-- Lists of pointers: membership, lists without repetition, and how long those can be.
use lopack.Prelude.{
  ℕ, zero, suc, Bool, true, false, not, ◌||◌, ◌&&◌, List, [], ◌∷◌, ◌++◌, ◌≡◌, refl, arith, length,
  ◌==◌, ◌≤◌, ◌<◌, if◌then◌else◌, Bool-cases, inl, inr,
}
use lopack.Liblo.Store.{Ptr}

abbrev pub has : Ptr → List Ptr → Bool
has q [] = false
has q (p ∷ ps) = (q == p) || has q ps

pub has-append : (q : Ptr) (xs ys : List Ptr) → has q (xs ++ ys) ≡ (has q xs || has q ys)
has-append q [] ys = refl
has-append q (x ∷ xs) ys = ground (arith, has-append q xs ys)

abbrev pub Distinct : List Ptr → Type 0
Distinct [] = Unit
Distinct (p ∷ ps) = (has p ps ≡ false) × Distinct ps

pub Distinct-append :
    (xs ys : List Ptr)
    → Distinct xs
    → Distinct ys
    → ((q : Ptr) → has q xs ≡ true → has q ys ≡ false)
    → Distinct (xs ++ ys)
Distinct-append [] ys dx dy apart = dy
Distinct-append (x ∷ xs) ys dx dy apart = (
  ground (arith, has-append x xs ys, dx.0, apart x),
  Distinct-append xs ys dx.1 dy (λ q i. apart q (ground arith)),
)

pub Distinct-front : (xs ys : List Ptr) → Distinct (xs ++ ys) → Distinct xs
Distinct-front [] ys d = tt
Distinct-front (x ∷ xs) ys d = (ground (arith, has-append x xs ys, d.0), Distinct-front xs ys d.1)

pub Distinct-back : (xs ys : List Ptr) → Distinct (xs ++ ys) → Distinct ys
Distinct-back [] ys d = d
Distinct-back (x ∷ xs) ys d = Distinct-back xs ys d.1

pub Distinct-apart :
    (xs ys : List Ptr) (q : Ptr) → Distinct (xs ++ ys) → has q xs ≡ true → has q ys ≡ false
Distinct-apart [] ys q d i = cc
Distinct-apart (x ∷ xs) ys q d i =
    ground (arith, has-append x xs ys, d.0, Distinct-apart xs ys q d.1)

-- The entries other than `x`.
without : Ptr → List Ptr → List Ptr
without x [] = []
without x (y ∷ ys) = if y == x then without x ys else y ∷ without x ys

has-without : (q x : Ptr) (ys : List Ptr) → has q (without x ys) ≡ (has q ys && not (q == x))
unfolding without
has-without q x [] = refl
has-without q x (y ∷ ys) = ground (arith, has-without q x ys)

Distinct-without : (x : Ptr) (ys : List Ptr) → Distinct ys → Distinct (without x ys)
unfolding without
Distinct-without x [] d = tt
Distinct-without x (y ∷ ys) d = elim (Bool-cases (y == x)) [
  | inl e ↦ rw e (Distinct-without x ys d.1)
  | inr e ↦ rw e (ground (arith, has-without y x ys, d.0), Distinct-without x ys d.1)
]

without_absent : (x : Ptr) (ys : List Ptr) → has x ys ≡ false → length (without x ys) ≡ length ys
unfolding without
without_absent x [] o = refl
without_absent x (y ∷ ys) o = ground (arith, without_absent x ys)

length-without : (x : Ptr) (ys : List Ptr) → Distinct ys → length ys ≤ suc (length (without x ys))
unfolding without
length-without x [] d = omega arith
length-without x (y ∷ ys) d = ground (arith, length-without x ys d.1, without_absent x ys)

-- There are no more than `n` distinct pointers below `n`.
pub length-Distinct :
    (n : ℕ) (xs : List Ptr) → Distinct xs → ((q : Ptr) → has q xs ≡ true → q < n) → length xs ≤ n
length-Distinct zero [] d below = omega arith
length-Distinct zero (x ∷ xs) d below = elim (below x (ground arith)) [ ]
length-Distinct (suc n) xs d below =
    let fewer =
      length-Distinct n (without n xs) (Distinct-without n xs d)
        (λ q i. ground (arith, has-without q n xs, below q)) in
    omega (arith, length-without n xs d)
