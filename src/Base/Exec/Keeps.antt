-- ===== src/Base/Exec/Keeps.antt =====
-- A predicate on the session that an action keeps, whether it returns or raises: a rule for each way
-- to build an action.
use hotel_server_v.Base.Exec.{Exec, Tx, Result, ok, err, raise_if, or_raise, ◌>>=◌}
use mathlib.Core.Bool.{Bool, true, false}
use mathlib.Core.Option.{Option, none, some}
use hotel_server_v.Base.Tests.{if◌then◌else◌}
use hotel_server_v.Errors.{Error}

module _ {D : Type 0} (P : Tx D → Type 0) where
  abbrev pub Keeps : {A : Type 0} → Exec D A → Type 0
  Keeps m = (s : Tx D) → P s → P (m s).1

  abbrev and_then : {A B : Type 0} → (A → Exec D B) → Result A → Exec D B
  and_then f r s = elim r [ ok a ↦ f a s | err e ↦ (err e, s) ]

  and_then-keeps :
      {A B : Type 0} (f : A → Exec D B) (r : Result A) (s : Tx D)
      → ((a : A) → Keeps (f a))
      → P s
      → P (and_then f r s).1
  and_then-keeps f (ok a) s k h = k a s h
  and_then-keeps f (err e) s k h = h

  pub Keeps-bind :
      {A B : Type 0} (m : Exec D A) (f : A → Exec D B)
      → Keeps m
      → ((a : A) → Keeps (f a))
      → Keeps (m >>= f)
  Keeps-bind m f km kf s h = and_then-keeps f (m s).0 (m s).1 kf (km s h)

  pub Keeps-if :
      {A : Type 0} (b : Bool) (m n : Exec D A) → Keeps m → Keeps n → Keeps (if b then m else n)
  Keeps-if true m n km kn = km
  Keeps-if false m n km kn = kn

  pub Keeps-or_raise : {A : Type 0} (o : Option A) (e : Error) → Keeps (or_raise o e)
  Keeps-or_raise none e s h = h
  Keeps-or_raise (some a) e s h = h

  pub Keeps-raise_if : (b : Bool) (e : Error) → Keeps (raise_if b e)
  Keeps-raise_if true e s h = h
  Keeps-raise_if false e s h = h
