-- ===== src/Liblo/Reference/Table.antt =====
-- Objects at the addresses 1, 2, 3 and so on, each handed out once.
use lopack.Prelude.{ℕ, suc, Option, none, some, ◌≡◌, fun_ext, arith, ltb, if◌then◌else◌}
use lopack.Liblo.Store.{Ptr, update}

pub record Table (A : Type 0) : Type 0 where
  pub used : ℕ
  pub cell : Ptr → Option A

module _ {A : Type 0} where
  abbrev pub empty : Table A
  empty = record { used = 0; cell = λ p. none }

  abbrev pub lookup : Table A → Ptr → Option A
  lookup t p = if ltb t.used p then none else t.cell p

  abbrev pub allocate : A → Table A → Table A
  allocate a t = record { used = suc t.used; cell = update t.cell (suc t.used) (some a) }

  abbrev pub put : Ptr → Option A → Table A → Table A
  put p o t = record t { cell = update t.cell p o }

  pub lookup-fresh : (t : Table A) → lookup t (suc t.used) ≡ none
  lookup-fresh t = ground arith

  pub lookup-allocate :
      (a : A) (t : Table A) → lookup (allocate a t) ≡ update (lookup t) (suc t.used) (some a)
  lookup-allocate a t = fun_ext λ q. ground arith

  pub lookup-put :
      (p : Ptr) (a b : A) (t : Table A)
      → lookup t p ≡ some a
      → lookup (put p (some b) t) ≡ update (lookup t) p (some b)
  lookup-put p a b t at = fun_ext λ q. ground (arith, at)

  pub lookup-erase : (p : Ptr) (t : Table A) → lookup (put p none t) ≡ update (lookup t) p none
  lookup-erase p t = fun_ext λ q. ground arith
