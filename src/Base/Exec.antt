-- ===== src/Base/Exec.antt =====
-- A service method over a database session. `db` is what the open transaction reads, `saved` what
-- has been committed. A raise keeps both: the caller may catch it; `request` then rolls back.
pub mod Keeps
use native.Mathlib.Omega.{arith}
use mathlib.Core.Path.{◌≡◌, refl}
use mathlib.Core.Logic.{◌⊎◌, inl, inr}
use mathlib.Core.Bool.{Bool, true, false}
use mathlib.Core.Option.{Option, none, some}
use hotel_server_v.Errors.{Error}

pub data Result {ℓ} (A : Type ℓ) : Type ℓ where
  ok : A → Result A
  err : Error → Result A

abbrev pub is_ok {ℓ} : {A : Type ℓ} → Result A → Bool
is_ok (ok a) = true
is_ok (err e) = false

pub Result-cases {ℓ} :
    {A : Type ℓ} (x : Result A) → ((a : A) × (x ≡ ok a)) ⊎ ((e : Error) × (x ≡ err e))
Result-cases (ok a) = inl (a, refl)
Result-cases (err e) = inr (e, refl)

pub ok-inj {ℓ} : {A : Type ℓ} {a b : A} → ok a ≡ ok b → a ≡ b
ok-inj h = ground (h, arith)

pub record Tx (D : Type 0) : Type 0 where
  pub db : D
  pub saved : D

abbrev pub Exec : Type 0 → Type 0 → Type 0
Exec D A = Tx D → Result A × Tx D

module _ {D A : Type 0} where
  abbrev pub pure : A → Exec D A
  pure a s = (ok a, s)

  abbrev pub raise : Error → Exec D A
  raise e s = (err e, s)

  abbrev pub gets : (D → A) → Exec D A
  gets f s = (ok (f s.db), s)

  abbrev pub or_raise : Option A → Error → Exec D A
  or_raise none e = raise e
  or_raise (some a) _ = pure a

  abbrev pub lift : Result A → Exec D A
  lift r s = (r, s)

module _ {D : Type 0} where
  abbrev pub modify : (D → D) → Exec D Unit
  modify f s = (ok tt, record s { db = f s.db })

  -- `await session.commit()`
  abbrev pub commit : Exec D Unit
  commit s = (ok tt, record s { saved = s.db })

  abbrev pub raise_if : Bool → Error → Exec D Unit
  raise_if true e s = (err e, s)
  raise_if false e s = (ok tt, s)

infixl 5 ◌>>=◌ ◌>>◌
abbrev pub ◌>>=◌ : {D A B : Type 0} → Exec D A → (A → Exec D B) → Exec D B
◌>>=◌ m f s = let (r, s') = m s in elim r [ ok a ↦ f a s' | err e ↦ (err e, s') ]

abbrev pub ◌>>◌ : {D A B : Type 0} → Exec D A → Exec D B → Exec D B
m >> k = m >>= λ _. k

-- One HTTP request: a fresh session on the stored data; what was not committed is rolled back.
abbrev pub request : {D A : Type 0} → Exec D A → D → Result A × D
request m d = let (r, s) = m (record { db = d; saved = d }) in (r, s.saved)
