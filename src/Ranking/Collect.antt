-- ===== src/Ranking/Collect.antt =====
-- About the loop over the preferences of one hotel, `_rank_one`.
use hotel_server_v.Base.{
  ℕ, String, Bool, not, all, Option, none, some, List, [], ◌∷◌, ◌≡◌, refl, inl, inr, Option-cases,
  arith, if◌then◌else◌, nat_eq,
}
use hotel_server_v.Base.Dict.{lookup}
use hotel_server_v.Base.Floats.{Floats}
use hotel_server_v.Ranking.{EffectivePreference, Score, Totals, collect, below_minimum, counted}
use hotel_server_v.Ranking.Groups.{value_of}

module _ (f : Floats) (show_id : ℕ → String) where
  -- A preference that does not exclude the hotel, by the hotel's values.
  abbrev pub admits : (ℕ → Option f.F) → EffectivePreference f.F → Bool
  admits values p = elim (values p.attribute_id) [
    | none ↦ not p.is_mandatory
    | some v ↦ not (below_minimum f show_id p v)
  ]

  -- The weights of the preferences that the hotel has a value for, and those values times the
  -- weights, summed in order.
  abbrev pub weight_sum : (ℕ → Option f.F) → f.F → List (EffectivePreference f.F) → f.F
  weight_sum values acc [] = acc
  weight_sum values acc (p ∷ ps) =
      weight_sum values (elim (values p.attribute_id) [ none ↦ acc | some v ↦ f.add acc p.weight ])
        ps

  abbrev pub value_sum : (ℕ → Option f.F) → f.F → List (EffectivePreference f.F) → f.F
  value_sum values acc [] = acc
  value_sum values acc (p ∷ ps) =
      value_sum values
        (elim (values p.attribute_id) [ none ↦ acc | some v ↦ f.add acc (f.multiply v p.weight) ])
        ps

  abbrev pub sums : Option (Totals f.F) → Option (f.F × f.F)
  sums none = none
  sums (some t) = some (t.weighted_sum, t.available_weight)

  pub sums-collect :
      (scores : List (ℕ × Score f.F)) (t : Totals f.F) (ps : List (EffectivePreference f.F))
      → let values = λ (a : ℕ). value_of f show_id (lookup a scores) in
        sums (collect f show_id scores t ps) ≡ (
          if all (admits values) ps
          then some (value_sum values t.weighted_sum ps, weight_sum values t.available_weight ps)
          else none)
  unfolding collect
  sums-collect scores t [] = refl
  sums-collect scores t (p ∷ ps) = elim (Option-cases (lookup p.attribute_id scores)) [
    | inl e ↦ ground (arith, e, sums-collect scores t ps)
    | inr (s, e) ↦ ground (arith, e, sums-collect scores (counted f show_id p s t) ps)
  ]
