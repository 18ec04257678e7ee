-- ===== src/Onboarding/Readiness.antt =====
-- `_branch_state`, `_unanswered_dimensions` and `_completion_readiness` of services/onboarding.py.
pub mod Laws
use hotel_server_v.Base.{
  ℕ, suc, ◌+◌, String, Bool, true, false, not, ◌&&◌, ◌||◌, Option, none, some, List, [], ◌∷◌, ◌++◌,
  ltb, ◌==◌, string_eq, if◌then◌else◌, contains, any, is_some, is_empty, keep, map, dedup,
}
use hotel_server_v.Base.Dict.{lookup}
use hotel_server_v.Base.Rational.{Rational, rat_le}
use hotel_server_v.Onboarding.Types.{
  Answer, Question, QuestionKind, clarification, standard, AnswerRow, Signal,
}
use hotel_server_v.Onboarding.Keys.{
  min_questions, branch_of_key, is_matching_key, is_group_branch_key, is_couple_signal,
  destination_matching_keys,
}
use hotel_server_v.Onboarding.Branches.{
  Rendering, Row, canonical_question_key, answer_value, canonical_destination_branch,
  group_branch_key, normalize_group,
}

-- The local variables of the loop in `_branch_state`.
pub record Tally : Type 0 where
  pub destination_questions : ℕ
  pub destination_matching_questions : ℕ
  pub group_questions : ℕ
  pub clarification_questions : ℕ
  pub destination_branch : Option String
  pub group_type : Option String

pub record BranchState : Type 0 where
  pub tally : Tally
  pub open tally use *
  pub destination_branch_selected : Bool
  pub destination_matching_signal_captured : Bool
  pub group_branch_key : Option String
  pub group_signal_captured : Bool

pub record Readiness : Type 0 where
  pub ready : Bool
  pub blockers : List String
  pub branch_state : BranchState

abbrev is_key : Option String → String → Bool
is_key none k = false
is_key (some j) k = j == k

abbrev one_more : Bool → ℕ → ℕ
one_more b n = if b then suc n else n

abbrev is_clarification : QuestionKind → Bool
is_clarification clarification = true
is_clarification standard = false

abbrev on_key : (String → Bool) → Option String → Bool
on_key p none = false
on_key p (some k) = p k

abbrev or_else : Option String → Option String → Option String
or_else none o = o
or_else (some a) o = some a

abbrev non_empty : Option String → Option String
non_empty none = none
non_empty (some v) = if v == "" then none else some v

module _ (r : Rendering) where
  abbrev key_of : Row → Option String
  key_of (question, row) = canonical_question_key r question row.answer

  -- The branch after one row: a selector's answer first, then a key that belongs to one branch.
  branch_after : Option String → Option String → Option String → Option String
  branch_after key value old =
      let selected =
        if is_key key "destination_branch"
        then or_else (canonical_destination_branch r value) old
        else old in
      elim key [ none ↦ selected | some k ↦ or_else (branch_of_key k) selected ]

  tally_row : Tally → Row → Tally
  unfolding branch_after
  tally_row t (question, row) =
      let key = canonical_question_key r question row.answer in
      let value = answer_value r row.answer in
      record {
        destination_questions = one_more (is_key key "destination_branch") t.destination_questions;
        destination_matching_questions =
            one_more (on_key is_matching_key key) t.destination_matching_questions;
        group_questions = one_more (on_key is_group_branch_key key) t.group_questions;
        clarification_questions =
            one_more (is_clarification question.question_kind) t.clarification_questions;
        destination_branch = branch_after key value t.destination_branch;
        group_type =
            if is_key key "travel_group"
            then or_else (non_empty value) t.group_type
            else t.group_type;
      }

  tally_rows : Tally → List Row → Tally
  unfolding tally_row
  tally_rows t [] = t
  tally_rows t (row ∷ rows) = tally_rows (tally_row t row) rows

  -- What a row of the group's own question says.
  abbrev captures : String → Option String → Bool
  captures group_key value =
      if group_key == "couple_style"
      then is_couple_signal (normalize_group r (elim value [ none ↦ "" | some v ↦ v ]))
      else is_some (non_empty value)

  -- The first row of the group's question decides.
  first_capture : String → List Row → Bool
  first_capture group_key [] = false
  first_capture group_key ((question, row) ∷ rows) =
      let rest = first_capture group_key rows in
      if is_key (canonical_question_key r question row.answer) group_key
      then captures group_key (answer_value r row.answer)
      else rest

  unfoldable pub group_signal_captured : Option String → List Row → Bool
  unfolding first_capture
  group_signal_captured none rows = false
  group_signal_captured (some k) rows =
      if k == "group_type_unknown" then false else first_capture k rows

  abbrev no_rows : Tally
  no_rows = record {
    destination_questions = 0;
    destination_matching_questions = 0;
    group_questions = 0;
    clarification_questions = 0;
    destination_branch = none;
    group_type = none;
  }

  abbrev is_solo : Option String → Option String → Bool
  is_solo none (some t) = t == "solo"
  is_solo _ _ = false

  unfoldable pub branch_state : List Row → BranchState
  unfolding tally_rows group_signal_captured
  branch_state rows =
      let t = tally_rows no_rows rows in
      let group_key = group_branch_key r t.group_type in
      record {
        tally = t;
        destination_branch_selected = is_some t.destination_branch;
        destination_matching_signal_captured = ltb 0 t.destination_matching_questions;
        group_branch_key = group_key;
        group_signal_captured =
            if is_solo group_key t.group_type then true else group_signal_captured group_key rows;
      }

  unfoldable pub has_key : String → List Row → Bool
  has_key k rows = any (λ row. is_key (key_of row) k) rows

  unfoldable pub unanswered_dimensions : List Row → List String
  unfolding has_key
  unanswered_dimensions rows =
      keep (λ k. not (has_key k rows)) ("price_value" ∷ "travel_pace" ∷ "food_preference" ∷ [])

  -- 0.85 as the interpreter stores it
  threshold : Rational
  threshold = record { up = 7656119366529843; down = 0; below = 9007199254740991 }

  unfoldable pub usable_inferred_signal : Option Signal → Bool
  unfolding threshold
  usable_inferred_signal none = false
  usable_inferred_signal (some s) = elim s.confidence [ none ↦ false | some q ↦ rat_le threshold q ]

  abbrev signal_value : Option Signal → String
  signal_value none = ""
  signal_value (some s) = s.value

  -- `answered_adaptive_location`: the question's metadata carry the code of the first question.
  unfoldable pub location_answered : List Row → Bool
  location_answered rows = any (λ row. is_key row.0.code "adaptive_location") rows

  -- The branch state with what the inferred signals add to it.
  unfoldable pub with_inferred : List (String × Signal) → BranchState → BranchState
  unfolding usable_inferred_signal destination_matching_keys
  with_inferred inferred state =
      let usable = λ (k : String). usable_inferred_signal (lookup k inferred) in
      let selected =
        usable "destination_branch"
        && is_some (
            canonical_destination_branch r
              (some (signal_value (lookup "destination_branch" inferred)))) in
      let matching = any usable destination_matching_keys in
      let couple =
        usable "couple_style"
        && is_couple_signal (normalize_group r (signal_value (lookup "couple_style" inferred))) in
      let grouped : Bool = elim state.group_branch_key [
        | none ↦ false
        | some k ↦ if k == "couple_style" then couple else usable k
      ] in
      record state {
        destination_branch_selected = selected || state.destination_branch_selected;
        destination_matching_signal_captured =
            matching || state.destination_matching_signal_captured;
        group_signal_captured = state.group_signal_captured || grouped;
      }

  abbrev block_if : Bool → String → List String → List String
  block_if b name rest = if b then name ∷ rest else rest

  abbrev unknown_group : BranchState → Bool
  unknown_group state =
      not (is_some (non_empty state.group_type))
      || is_key state.group_branch_key "group_type_unknown"

  abbrev missing_group : BranchState → List String → List String
  missing_group state rest = elim state.group_branch_key [
    | none ↦ rest
    | some k ↦ block_if (not state.group_signal_captured) k rest
  ]

  unfoldable pub blockers_of : BranchState → List Row → ℕ → List String
  unfolding location_answered unanswered_dimensions
  blockers_of state rows answered = block_if (ltb answered min_questions) "minimum_question_count" (
      block_if (not (location_answered rows)) "destination_context" (
        block_if (unknown_group state) "travel_group" (
          missing_group state (
            block_if (not state.destination_branch_selected) "destination_branch" (
              block_if (not state.destination_matching_signal_captured)
                "destination_matching_signal" (unanswered_dimensions rows))))))

  unfoldable pub completion_readiness : List (String × Signal) → List Row → ℕ → Readiness
  unfolding with_inferred branch_state blockers_of
  completion_readiness inferred rows answered =
      let state = with_inferred inferred (branch_state rows) in
      let blockers = blockers_of state rows answered in
      record { ready = is_empty blockers; blockers = dedup blockers; branch_state = state }
