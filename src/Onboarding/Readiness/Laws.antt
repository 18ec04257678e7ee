-- ===== src/Onboarding/Readiness/Laws.antt =====
-- The completion gate of services/onboarding.py against a description of what it demands.
use hotel_server_v.Base.{
  ℕ, ◌≤◌, ◌≡◌, refl, ◌≢◌, ◌↔◌, ◌∙◌, String, true, false, none, some, List, [], ◌∷◌, arith, ◌⊎◌, inl,
  inr, Bool-cases, Option-cases, string_eq, string_eq_iff,
}
use hotel_server_v.Onboarding.Types.{Signal}
use hotel_server_v.Onboarding.Branches.{Rendering, Row}
use hotel_server_v.Onboarding.Readiness.{
  Tally, BranchState, branch_state, with_inferred, blockers_of, completion_readiness,
  location_answered, has_key, tally_rows, no_rows, is_key, tally_row, key_of,
}

-- What a complete questionnaire has, read off its state and rows.
pub record IsComplete (r : Rendering) (state : BranchState) (rows : List Row) (answered : ℕ)
    : Type 0 where
  pub enough : 5 ≤ answered
  pub located : location_answered r rows ≡ true
  pub group : state.group_type ≢ none
  pub named_group : state.group_type ≢ some ""
  pub known_group : state.group_branch_key ≢ some "group_type_unknown"
  pub group_signal : (state.group_branch_key ≡ none) ⊎ (state.group_signal_captured ≡ true)
  pub branch : state.destination_branch_selected ≡ true
  pub matching : state.destination_matching_signal_captured ≡ true
  pub price : has_key r "price_value" rows ≡ true
  pub pace : has_key r "travel_pace" rows ≡ true
  pub food : has_key r "food_preference" rows ≡ true

module _ (r : Rendering) where
  tally_row-group_type :
      (t : Tally) (row : Row)
      → is_key (key_of r row) "travel_group" ≡ false
      → (tally_row r t row).group_type ≡ t.group_type
  unfolding tally_row
  tally_row-group_type t (question, row) e = rw e

  blockers_of-IsComplete :
      (state : BranchState) (rows : List Row) (answered : ℕ)
      → blockers_of r state rows answered ≡ []
      → IsComplete r state rows answered
  unfolding blockers_of
  blockers_of-IsComplete state rows answered h = ground arith

  IsComplete-blockers_of :
      (state : BranchState) (rows : List Row) (answered : ℕ)
      → IsComplete r state rows answered
      → blockers_of r state rows answered ≡ []
  unfolding blockers_of
  IsComplete-blockers_of state rows answered c = elim (Option-cases state.group_type) [
    | inl e ↦ absurd (c.group e)
    | inr (t, e) ↦ elim (Option-cases state.group_branch_key) [
      | inl k ↦ ground (arith, string_eq_iff t "")
      | inr (g, k) ↦ ground (arith, string_eq_iff t "", string_eq_iff g "group_type_unknown")
    ]
  ]

  -- The gate opens exactly when at least five questions are answered, the location among them, the
  -- travel group is known and its own signal captured where it has one, a destination branch and a
  -- matching signal are there, and price, pace and food have each been answered.
  pub ready_iff :
      (inferred : List (String × Signal)) (rows : List Row) (answered : ℕ)
      → ((completion_readiness r inferred rows answered).ready ≡ true)
        ↔ IsComplete r (with_inferred r inferred (branch_state r rows)) rows answered
  unfolding completion_readiness
  ready_iff inferred rows answered = (
    λ h.
        blockers_of-IsComplete (with_inferred r inferred (branch_state r rows)) rows answered
          (ground arith),
    λ c.
        rw
          (IsComplete-blockers_of (with_inferred r inferred (branch_state r rows)) rows answered c),
  )

  -- The travel group comes from the start or from a row of that key.
  tally_rows-group_type :
      (t : Tally) (rows : List Row)
      → ((tally_rows r t rows).group_type ≡ t.group_type) ⊎ (has_key r "travel_group" rows ≡ true)
  unfolding tally_rows has_key
  tally_rows-group_type t [] = inl refl
  tally_rows-group_type t (row ∷ rows) = elim (Bool-cases (is_key (key_of r row) "travel_group")) [
    | inl e ↦ inr (rw e refl)
    | inr e ↦ elim (tally_rows-group_type (tally_row r t row) rows) [
      | inl same ↦ inl (same ∙ tally_row-group_type t row e)
      | inr found ↦ inr (rw (e, found))
    ]
  ]

  -- No inferred signal replaces a core answer: when the gate is open, the rows hold an answer of the
  -- location question and one of each of travel group, price, pace and food.
  pub ready-core_answers :
      (inferred : List (String × Signal)) (rows : List Row) (answered : ℕ)
      → (completion_readiness r inferred rows answered).ready ≡ true
      → (location_answered r rows ≡ true)
        × (has_key r "travel_group" rows ≡ true)
        × (has_key r "price_value" rows ≡ true)
        × (has_key r "travel_pace" rows ≡ true)
        × (has_key r "food_preference" rows ≡ true)
  unfolding with_inferred branch_state
  ready-core_answers inferred rows answered h =
      let c = (ready_iff inferred rows answered).0 h in
      (
        c.located,
        elim (tally_rows-group_type (no_rows r) rows) [
          | inl e ↦ absurd (c.group e)
          | inr found ↦ found
        ],
        c.price,
        c.pace,
        c.food,
      )
