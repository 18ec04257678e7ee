-- ===== src/Ranking/Groups.antt =====
-- About the table of hotels that `rank_hotels` builds from the rows.
use hotel_server_v.Base.{
  ℕ, String, ◌||◌, Option, none, some, List, [], ◌∷◌, ◌≡◌, refl, inl, inr, Bool-cases, Option-cases,
  arith, if◌then◌else◌, nat_eq, any, is_some, eqb,
}
use hotel_server_v.Base.Dict.{lookup, insert, lookup-insert}
use hotel_server_v.Base.Floats.{Floats}
use hotel_server_v.Ranking.{
  Candidate, Score, Hotel, add_row, group_rows, row_score, score_from, with_score, hotel_of,
}

module _ {ℓ} {V : Type ℓ} where
  -- No key occurs twice.
  abbrev pub HasDistinctKeys : List (ℕ × V) → Type ℓ
  HasDistinctKeys [] = Unit
  HasDistinctKeys ((k, v) ∷ d) = lookup k d ≡ none × HasDistinctKeys d

  pub insert-HasDistinctKeys :
      (k : ℕ) (v : V) (d : List (ℕ × V)) → HasDistinctKeys d → HasDistinctKeys (insert k v d)
  unfolding insert lookup
  insert-HasDistinctKeys k v [] h = (refl, tt)
  insert-HasDistinctKeys k v ((j, w) ∷ d) h = elim (Bool-cases (eqb j k)) [
    | inl e ↦ rw e h
    | inr e ↦ rw e (ground (arith, e, h.0, lookup-insert k j v d), insert-HasDistinctKeys k v d h.1)
  ]

module _ (f : Floats) (show_id : ℕ → String) where
  -- The value that a row gives to an attribute of a hotel.
  abbrev pub value_in : ℕ → ℕ → Candidate f.F → Option f.F
  value_in hotel attribute row =
      if eqb row.hotel_id hotel
      then elim row.attribute_id [
        | none ↦ none
        | some a ↦ if eqb a attribute then row.evidence.relative_score_5 else none
      ]
      else none

  -- The value in the last of the rows that has one.
  abbrev pub last_value : ℕ → ℕ → List (Candidate f.F) → Option f.F
  last_value hotel attribute [] = none
  last_value hotel attribute (row ∷ rows) = elim (last_value hotel attribute rows) [
    | none ↦ value_in hotel attribute row
    | some v ↦ some v
  ]

  abbrev pub value_of : Option (Score f.F) → Option f.F
  value_of none = none
  value_of (some s) = some s.value

  abbrev pub stored_value : ℕ → ℕ → List (ℕ × Hotel f.F) → Option f.F
  stored_value hotel attribute d = elim (lookup hotel d) [
    | none ↦ none
    | some h ↦ value_of (lookup attribute h.scores)
  ]

  -- The value after a row is put into the hotel.
  value_of-with_score :
      (attribute : ℕ) (row : Candidate f.F) (h : Hotel f.F)
      → value_of (lookup attribute (with_score f show_id (row_score f show_id row) h).scores)
        ≡ elim (value_in row.hotel_id attribute row) [
          | none ↦ value_of (lookup attribute h.scores)
          | some v ↦ some v
        ]
  value_of-with_score attribute row h = elim (Option-cases row.attribute_id) [
    | inl e ↦ ground (arith, e)
    | inr (a, e) ↦ elim (Option-cases row.evidence.relative_score_5) [
      | inl q ↦ ground (arith, e, q)
      | inr (v, q) ↦
          ground (arith, e, q, lookup-insert a attribute (score_from f show_id row a v) h.scores)
    ]
  ]

  value_of-hotel_of :
      (attribute : ℕ) (row : Candidate f.F) (d : List (ℕ × Hotel f.F))
      → value_of (lookup attribute (hotel_of f show_id row d).scores)
        ≡ stored_value row.hotel_id attribute d
  unfolding lookup
  value_of-hotel_of attribute row d = elim (Option-cases (lookup row.hotel_id d)) [
    | inl e ↦ ground (arith, e)
    | inr (h, e) ↦ ground (arith, e)
  ]

  stored_value-add_row :
      (hotel attribute : ℕ) (row : Candidate f.F) (d : List (ℕ × Hotel f.F))
      → stored_value hotel attribute (add_row f show_id row d)
        ≡ elim (value_in hotel attribute row) [
          | none ↦ stored_value hotel attribute d
          | some v ↦ some v
        ]
  unfolding add_row
  stored_value-add_row hotel attribute row d =
      let h = hotel_of f show_id row d in
      let stored =
        lookup-insert row.hotel_id hotel (with_score f show_id (row_score f show_id row) h) d in
      elim (Bool-cases (eqb row.hotel_id hotel)) [
        | inl e ↦ ground (
          arith,
          e,
          stored,
          value_of-with_score attribute row h,
          value_of-hotel_of attribute row d,
        )
        | inr e ↦ ground (arith, e, stored)
      ]

  pub stored_value-group_rows :
      (hotel attribute : ℕ) (d : List (ℕ × Hotel f.F)) (rows : List (Candidate f.F))
      → stored_value hotel attribute (group_rows f show_id d rows)
        ≡ elim (last_value hotel attribute rows) [
          | none ↦ stored_value hotel attribute d
          | some v ↦ some v
        ]
  unfolding group_rows
  stored_value-group_rows hotel attribute d [] = refl
  stored_value-group_rows hotel attribute d (row ∷ rows) = ground (
    arith,
    stored_value-group_rows hotel attribute (add_row f show_id row d) rows,
    stored_value-add_row hotel attribute row d,
  )

  pub is_some-group_rows :
      (hotel : ℕ) (d : List (ℕ × Hotel f.F)) (rows : List (Candidate f.F))
      → is_some (lookup hotel (group_rows f show_id d rows))
        ≡ (is_some (lookup hotel d) || any (λ row. eqb row.hotel_id hotel) rows)
  unfolding group_rows add_row
  is_some-group_rows hotel d [] = ground arith
  is_some-group_rows hotel d (row ∷ rows) = ground (
    arith,
    is_some-group_rows hotel (add_row f show_id row d) rows,
    lookup-insert row.hotel_id hotel
        (with_score f show_id (row_score f show_id row) (hotel_of f show_id row d)) d,
  )

  pub group_rows-HasDistinctKeys :
      (d : List (ℕ × Hotel f.F)) (rows : List (Candidate f.F))
      → HasDistinctKeys d
      → HasDistinctKeys (group_rows f show_id d rows)
  unfolding group_rows add_row
  group_rows-HasDistinctKeys d [] h = h
  group_rows-HasDistinctKeys d (row ∷ rows) h =
      group_rows-HasDistinctKeys (add_row f show_id row d) rows
        (insert-HasDistinctKeys row.hotel_id _ d h)
