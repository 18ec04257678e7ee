-- ===== src/Base/Sort.antt =====
-- `sorted(xs, key=...)`: a stable sort by the comparison `<` of the keys.
use mathlib.Core.Path.{◌≡◌, refl}
use mathlib.Core.Bool.{Bool, true, false}
use mathlib.Core.List.{List, [], ◌∷◌, Perm}
use mathlib.Core.List.Perm
use mathlib.Core.Logic.{inl, inr}
use native.Mathlib.Omega.{arith}
use hotel_server_v.Base.Tests.{if◌then◌else◌, Bool-cases}
use hotel_server_v.Base.Lists.{All, find, is_empty}
use mathlib.Core.Option.{none}

-- A strict order, of which "not after" is a total preorder.
pub record IsStrict {ℓ} {A : Type ℓ} (less : A → A → Bool) : Type ℓ where
  pub asym : (a b : A) → less a b ≡ true → less b a ≡ false
  pub trans : (a b c : A) → less b a ≡ false → less c b ≡ false → less c a ≡ false

module _ {ℓ} {A : Type ℓ} where
  -- At most one element passes the test.
  abbrev pub IsUnique : (A → Bool) → List A → Type ℓ
  IsUnique p [] = Unit
  IsUnique p (x ∷ xs) = (p x ≡ true → find p xs ≡ none) × IsUnique p xs

module _ {ℓ} {A : Type ℓ} (less : A → A → Bool) where
  pub place : A → List A → List A
  place x [] = x ∷ []
  place x (y ∷ ys) = if less y x then y ∷ place x ys else x ∷ y ∷ ys

  unfoldable pub sort_by : List A → List A
  unfolding place
  sort_by [] = []
  sort_by (x ∷ xs) = place x (sort_by xs)

  -- No later element is less than an earlier one.
  abbrev pub IsSorted : List A → Type 0
  IsSorted [] = Unit
  IsSorted (x ∷ xs) = All (λ y. less y x ≡ false) xs × IsSorted xs

  pub place-perm : (x : A) (xs : List A) → Perm (place x xs) (x ∷ xs)
  unfolding place
  place-perm x [] = Perm.rfl
  place-perm x (y ∷ ys) = elim (Bool-cases (less y x)) [
    | inl e ↦ rw e (Perm.trans (Perm.cons y (place-perm x ys)) (Perm.swap x y ys))
    | inr e ↦ rw e Perm.rfl
  ]

  pub sort_by-perm : (xs : List A) → Perm (sort_by xs) xs
  unfolding sort_by
  sort_by-perm [] = Perm.rfl
  sort_by-perm (x ∷ xs) = Perm.trans (place-perm x (sort_by xs)) (Perm.cons x (sort_by-perm xs))

  place-is_empty : (x : A) (xs : List A) → is_empty (place x xs) ≡ false
  unfolding place
  place-is_empty x [] = refl
  place-is_empty x (y ∷ ys) = ground arith

  pub sort_by-is_empty : (xs : List A) → is_empty xs ≡ false → is_empty (sort_by xs) ≡ false
  unfolding sort_by
  sort_by-is_empty [] h = h
  sort_by-is_empty (x ∷ xs) h = place-is_empty x (sort_by xs)

  -- A predicate on every element survives the sort.
  place-All : (P : A → Type 0) (x : A) (xs : List A) → P x → All P xs → All P (place x xs)
  unfolding place
  place-All P x [] p h = (p, tt)
  place-All P x (y ∷ ys) p h = elim (Bool-cases (less y x)) [
    | inl e ↦ rw e (h.0, place-All P x ys p h.1)
    | inr e ↦ rw e (p, h)
  ]

  pub sort_by-All : (P : A → Type 0) (xs : List A) → All P xs → All P (sort_by xs)
  unfolding sort_by
  sort_by-All P [] h = tt
  sort_by-All P (x ∷ xs) h = place-All P x (sort_by xs) h.0 (sort_by-All P xs h.1)

  -- A sorted list is its own sort.
  pub sort_by-id : (xs : List A) → IsSorted xs → sort_by xs ≡ xs
  unfolding sort_by place
  sort_by-id [] s = refl
  sort_by-id (x ∷ []) s = refl
  sort_by-id (x ∷ y ∷ ys) s = ground (sort_by-id (y ∷ ys) s.1, s.0.0, arith)

  module _ (laws : IsStrict less) where
    below-All :
        (x y : A) (ys : List A)
        → less y x ≡ false
        → All (λ z. less z y ≡ false) ys
        → All (λ z. less z x ≡ false) ys
    below-All x y [] h a = tt
    below-All x y (z ∷ zs) h a = (laws.trans x y z h a.0, below-All x y zs h a.1)

    place-IsSorted : (x : A) (xs : List A) → IsSorted xs → IsSorted (place x xs)
    unfolding place
    place-IsSorted x [] s = (tt, tt)
    place-IsSorted x (y ∷ ys) s = elim (Bool-cases (less y x)) [
      | inl e ↦
          rw e
            (place-All (λ z. less z y ≡ false) x ys (laws.asym y x e) s.0, place-IsSorted x ys s.1)
      | inr e ↦ rw e ((e, below-All x y ys e s.0), s)
    ]

    pub sort_by-IsSorted : (xs : List A) → IsSorted (sort_by xs)
    unfolding sort_by
    sort_by-IsSorted [] = tt
    sort_by-IsSorted (x ∷ xs) = place-IsSorted x (sort_by xs) (sort_by-IsSorted xs)

  place-find :
      (p : A → Bool) (x : A) (xs : List A)
      → (p x ≡ true → find p xs ≡ none)
      → find p (place x xs) ≡ find p (x ∷ xs)
  unfolding place
  place-find p x [] u = refl
  place-find p x (y ∷ ys) u = elim (Bool-cases (less y x)) [
    | inl e ↦ elim (Bool-cases (p x)) [
      | inl q ↦ ground (arith, e, q, u q, place-find p x ys)
      | inr q ↦ ground (arith, e, q, place-find p x ys)
    ]
    | inr e ↦ rw e refl
  ]

  pub find-sort_by : (p : A → Bool) (xs : List A) → IsUnique p xs → find p (sort_by xs) ≡ find p xs
  unfolding sort_by
  find-sort_by p [] u = refl
  find-sort_by p (x ∷ xs) u =
      ground (arith, find-sort_by p xs u.1, place-find p x (sort_by xs), u.0)
