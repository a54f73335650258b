-- ===== src/Liblo/Updates.antt =====
-- Laws of a map that is changed at one pointer.
use lopack.Prelude.{
  true, false, ◌≡◌, refl, ap, ◌∙◌, ◌⊎◌, inl, inr, fun_ext, ◌==◌, ==_iff, Bool-cases,
}
use lopack.Liblo.Store.{Ptr, update}

-- An equation of functions at an argument.
pub at {ℓ} : {A : Type ℓ} {f g : Ptr → A} → f ≡ g → (q : Ptr) → f q ≡ g q
at e q = ap (λ f. f q) e

pub update-update {ℓ} :
    {A : Type ℓ} (f : Ptr → A) (p : Ptr) (a b : A) → update (update f p a) p b ≡ update f p b
update-update f p a b = fun_ext λ q. split q (Bool-cases (q == p))
  where
    split :
        (q : Ptr)
        → ((q == p) ≡ true) ⊎ ((q == p) ≡ false)
        → update (update f p a) p b q ≡ update f p b q
    split q (inl e) = rw e
    split q (inr e) = rw e

pub update_self {ℓ} : {A : Type ℓ} (f : Ptr → A) (p : Ptr) (a : A) → update f p a p ≡ a
update_self f p a = rw ((==_iff p p).1 refl)

pub update_same {ℓ} : {A : Type ℓ} (f : Ptr → A) (p : Ptr) (a : A) → f p ≡ a → f ≡ update f p a
update_same f p a e = fun_ext λ q. split q (Bool-cases (q == p))
  where
    split : (q : Ptr) → ((q == p) ≡ true) ⊎ ((q == p) ≡ false) → f q ≡ update f p a q
    split q (inl h) = rw h (ap f ((==_iff q p).0 h) ∙ e)
    split q (inr h) = rw h refl
