-- ===== src/Base/Dict.antt =====
-- A Python dict as an association list in insertion order.
use mathlib.Core.Path.{◌≡◌, refl, sym, subst}
use mathlib.Core.Option.{Option, none, some}
use mathlib.Core.List.{List, [], ◌∷◌}
use native.Mathlib.Omega.{arith}
use mathlib.Core.Logic.{inl, inr}
use hotel_server_v.Base.Tests.{if◌then◌else◌, Bool-cases, KeyEquality, ◌==◌}

module _ {ℓ κ} {K : Type ℓ} {V : Type κ} ⦃e : KeyEquality K⦄ where
  -- `d.get(k)`
  unfoldable pub lookup : K → List (K × V) → Option V
  lookup k [] = none
  lookup k ((j, v) ∷ d) = if j == k then some v else lookup k d

  -- `d[k] = v`
  unfoldable pub insert : K → V → List (K × V) → List (K × V)
  insert k v [] = (k, v) ∷ []
  insert k v ((j, w) ∷ d) = if j == k then (j, v) ∷ d else (j, w) ∷ insert k v d

  pub lookup-insert :
      (k j : K) (v : V) (d : List (K × V))
      → lookup j (insert k v d) ≡ (if k == j then some v else lookup j d)
  unfolding lookup insert
  lookup-insert k j v [] = refl
  lookup-insert k j v ((i, w) ∷ d) =
      ground (arith, e.same_iff k j, e.same_iff i k, e.same_iff i j, lookup-insert k j v d)

  module _ {μ} (P : K → V → Type μ) where
    -- A relation between every key and its value.
    abbrev pub Entries : List (K × V) → Type μ
    Entries [] = Unit
    Entries ((k, v) ∷ d) = P k v × Entries d

    pub lookup-Entries :
        (k : K) (d : List (K × V)) (v : V) → Entries d → lookup k d ≡ some v → P k v
    unfolding lookup
    lookup-Entries k [] v h q = ground (arith, q)
    lookup-Entries k ((j, w) ∷ d) v h q = elim (Bool-cases (j == k)) [
      | inl r ↦ subst (λ x. P x v) ((e.same_iff j k).0 r) (subst (P j) (ground (arith, q, r)) h.0)
      | inr r ↦ lookup-Entries k d v h.1 (ground (arith, q, r))
    ]

    pub insert-Entries :
        (k : K) (v : V) (d : List (K × V)) → P k v → Entries d → Entries (insert k v d)
    unfolding insert
    insert-Entries k v [] p h = (p, tt)
    insert-Entries k v ((j, w) ∷ d) p h = elim (Bool-cases (j == k)) [
      | inl r ↦ rw r (subst (λ x. P x v) (sym ((e.same_iff j k).0 r)) p, h.1)
      | inr r ↦ rw r (h.0, insert-Entries k v d p h.1)
    ]
