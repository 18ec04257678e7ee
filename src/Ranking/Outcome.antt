-- ===== src/Ranking/Outcome.antt =====
-- About what `rank_hotels` returns for one hotel, against the rows it was given.
use hotel_server_v.Base.{
  ℕ, String, ◌&&◌, not, any, all, find, Option, none, some, List, [], ◌∷◌, ◌≡◌, refl, inl, inr,
  Bool-cases, Option-cases, arith, if◌then◌else◌, nat_eq, is_some, eqb,
}
use hotel_server_v.Base.Dict.{lookup}
use hotel_server_v.Base.Floats.{Floats, whole}
use hotel_server_v.Ranking.{
  Candidate, EffectivePreference, RankedHotel, Hotel, collect, no_totals, rank_one, rank_all,
  append_ranked, total_of,
}
use hotel_server_v.Ranking.Groups.{HasDistinctKeys, last_value}
use hotel_server_v.Ranking.Collect.{admits, weight_sum, value_sum}

module _ (f : Floats) (show_id : ℕ → String) where
  -- The rating and the coverage of a hotel by its values: none where a preference excludes it or
  -- no weight is left.
  abbrev pub outcome : (ℕ → Option f.F) → List (EffectivePreference f.F) → Option (f.F × f.F)
  outcome values ps =
      let weight = weight_sum f show_id values (whole f 0) ps in
      if all (admits f show_id values) ps && not (f.equal weight (whole f 0))
      then some (
        f.rounded 3 (f.divide (value_sum f show_id values (whole f 0) ps) weight),
        f.rounded 4 (f.divide weight (total_of f show_id (whole f 0) ps)),
      )
      else none

  abbrev pub outcome_of : Option (RankedHotel f.F) → Option (f.F × f.F)
  outcome_of none = none
  outcome_of (some r) = some (r.personalized_rating, r.coverage_score)

  module _ (ps : List (EffectivePreference f.F)) (total : f.F) where
    find-append_ranked :
        (hotel j : ℕ) (h : Hotel f.F) (rs : List (RankedHotel f.F))
        → find
            (λ r. eqb r.hotel_id hotel)
            (append_ranked f show_id (rank_one f show_id j h ps total) rs)
          ≡ (if eqb j hotel && is_some (rank_one f show_id j h ps total)
              then rank_one f show_id j h ps total
              else find (λ r. eqb r.hotel_id hotel) rs)
    unfolding rank_one
    find-append_ranked hotel j h rs =
        elim (Option-cases (collect f show_id h.scores (no_totals f show_id) ps)) [
          | inl e ↦ ground (arith, e)
          | inr (t, e) ↦ ground (arith, e)
        ]

    pub find-rank_all :
        (hotel : ℕ) (d : List (ℕ × Hotel f.F))
        → HasDistinctKeys d
        → find (λ r. eqb r.hotel_id hotel) (rank_all f show_id d ps total)
          ≡ elim (lookup hotel d) [ none ↦ none | some h ↦ rank_one f show_id hotel h ps total ]
    unfolding rank_all lookup
    find-rank_all hotel [] u = refl
    find-rank_all hotel ((j, h) ∷ d) u = elim (Bool-cases (eqb j hotel)) [
      | inl e ↦ elim (Option-cases (rank_one f show_id hotel h ps total)) [
        | inl q ↦ ground (
          arith,
          e,
          q,
          u.0,
          find-rank_all hotel d u.1,
          find-append_ranked hotel j h (rank_all f show_id d ps total),
        )
        | inr (r, q) ↦
            ground (arith, e, q, find-append_ranked hotel j h (rank_all f show_id d ps total))
      ]
      | inr e ↦ ground (
        arith,
        e,
        find-rank_all hotel d u.1,
        find-append_ranked hotel j h (rank_all f show_id d ps total),
      )
    ]

  -- What the rows say of a hotel.
  abbrev pub described :
      ℕ → List (Candidate f.F) → List (EffectivePreference f.F) → Option (f.F × f.F)
  described hotel rows ps =
      if any (λ row. eqb row.hotel_id hotel) rows
      then outcome (λ a. last_value f show_id hotel a rows) ps
      else none
