-- ===== src/Onboarding/Answers.antt =====
-- `_validate_answer` of services/onboarding.py, against a description of the answers it admits.
use Prim.Native.String.{count}
use hotel_server_v.Base.{
  String, ◌≤◌, ◌≡◌, refl, ap, ◌∙◌, ◌≢◌, ◌↔◌, Bool, true, false, not, ◌||◌, Option, none, some, List,
  [], ◌∷◌, arith, ltb, ◌==◌, string_eq, string_eq_iff, if◌then◌else◌, contains, distinct, length,
  is_empty, map, all, Option-cases, inl, inr, ◌⊎◌,
}
use hotel_server_v.Base.Exec.{Result, ok, err}
use hotel_server_v.Base.Rational.{Rational, rat_lt}
use hotel_server_v.Base.Text.{strip}
use hotel_server_v.Errors.{import_validation}
use hotel_server_v.Onboarding.Types.{
  Value, text, num, Choice, one, many, Answer, AnswerType, single_choice, multi_choice, scale,
  free_text, unsupported, Question,
}

abbrev pub option_values : Question → List String
option_values question = map (λ o. o.value) question.options

abbrev refuse : {A : Type 0} → String → Result A
refuse message = err (import_validation message)

abbrev one_option : List String → Value → Result (Unit {0})
one_option options (text v) =
    if contains v options then ok tt else refuse "Answer is not a valid question option"
one_option options _ = refuse "Answer is not a valid question option"

validate_single : List String → Option Choice → Result (Unit {0})
validate_single options none = refuse "Answer is not a valid question option"
validate_single options (some (one v)) = one_option options v
validate_single options (some (many (v ∷ []))) = one_option options v
validate_single options (some (many [])) = refuse "Select exactly one option"
validate_single options (some (many (v ∷ w ∷ vs))) = refuse "Select exactly one option"

-- `any(not isinstance(value, str) or value not in options ...)`
abbrev any_invalid : List String → List Value → Bool
any_invalid options [] = false
any_invalid options (text v ∷ vs) = if contains v options then any_invalid options vs else true
any_invalid options (v ∷ vs) = true

-- The texts of a list that has passed the test above.
abbrev texts : List Value → List String
texts [] = []
texts (text v ∷ vs) = v ∷ texts vs
texts (_ ∷ vs) = texts vs

abbrev no_repeats : List Value → Result (Unit {0})
no_repeats values =
    if not (distinct (texts values)) || ltb 8 (length values)
    then refuse "Answer contains duplicate or excessive options"
    else ok tt

validate_multi : List String → Option Choice → Result (Unit {0})
validate_multi options (some (many values)) =
    if is_empty values || any_invalid options values
    then refuse "Answer contains invalid options"
    else no_repeats values
validate_multi options _ = refuse "Answer contains invalid options"

abbrev below : Option Rational → Rational → Bool
below none v = false
below (some low) v = rat_lt v low

abbrev above : Option Rational → Rational → Bool
above none v = false
above (some high) v = rat_lt high v

validate_scale : Question → Option Value → Result (Unit {0})
validate_scale question (some (num v)) =
    if below question.scale_min v
    then refuse "Scale answer is below the minimum"
    else if above question.scale_max v
    then refuse "Scale answer is above the maximum"
    else ok tt
validate_scale question _ = refuse "Scale answer must be numeric"

validate_text : Option Value → Result (Unit {0})
validate_text (some (text s)) =
    if strip s == "" || ltb 500 (count s)
    then refuse "Text answer must contain 1-500 characters"
    else ok tt
validate_text _ = refuse "Text answer must contain 1-500 characters"

abbrev validate_as : AnswerType → Question → Answer → Result (Unit {0})
validate_as single_choice question answer = validate_single (option_values question) answer.selected
validate_as multi_choice question answer = validate_multi (option_values question) answer.selected
validate_as scale question answer = validate_scale question answer.value
validate_as free_text question answer = validate_text answer.value
validate_as (unsupported _) question answer = refuse "Unsupported adaptive answer type"

unfoldable pub validate_answer : Question → Answer → Result (Unit {0})
unfolding validate_single validate_multi validate_scale validate_text
validate_answer question answer = validate_as question.answer_type question answer

-- The answers that a question takes, by its type.
abbrev pub Fits : AnswerType → Question → Answer → Type 0
Fits single_choice q a =
    (v : String) × (contains v (option_values q) ≡ true)
    × ((a.selected ≡ some (one (text v))) ⊎ (a.selected ≡ some (many (text v ∷ []))))
Fits multi_choice q a =
    (vs : List String) × (a.selected ≡ some (many (map text vs)))
    × (vs ≢ [])
    × (all (λ v. contains v (option_values q)) vs ≡ true)
    × (distinct vs ≡ true)
    × (length vs ≤ 8)
Fits scale q a =
    (v : Rational) × (a.value ≡ some (num v))
    × (below q.scale_min v ≡ false)
    × (above q.scale_max v ≡ false)
Fits free_text q a = (s : String) × (a.value ≡ some (text s)) × (strip s ≢ "") × (count s ≤ 500)
Fits (unsupported _) q a = ⊥

one_option_ok :
    (options : List String) (w : Value)
    → one_option options w ≡ ok tt
    → (v : String) × (contains v options ≡ true) × (w ≡ text v)
one_option_ok options (text v) h = (v, ground arith, refl)
one_option_ok options _ h = absurd (cc)

single_ok :
    (options : List String) (c : Option Choice)
    → validate_single options c ≡ ok tt
    → (v : String) × (contains v options ≡ true)
      × ((c ≡ some (one (text v))) ⊎ (c ≡ some (many (text v ∷ []))))
unfolding validate_single
single_ok options none h = absurd (cc)
single_ok options (some (one w)) h =
    let (v, m, e) = one_option_ok options w h in (v, m, inl (ap (λ x. some (one x)) e))
single_ok options (some (many [])) h = absurd (cc)
single_ok options (some (many (w ∷ []))) h =
    let (v, m, e) = one_option_ok options w h in (v, m, inr (ap (λ x. some (many (x ∷ []))) e))
single_ok options (some (many (_ ∷ _ ∷ _))) h = absurd (cc)

valid_texts :
    (options : List String) (vs : List Value)
    → any_invalid options vs ≡ false
    → (map text (texts vs) ≡ vs)
      × (all (λ v. contains v options) (texts vs) ≡ true)
      × (length (texts vs) ≡ length vs)
valid_texts options [] h = (refl, refl, refl)
valid_texts options (text v ∷ vs) h = ground (arith, valid_texts options vs)
valid_texts options (_ ∷ vs) h = absurd (ground arith)

multi_ok :
    (options : List String) (values : List Value)
    → validate_multi options (some (many values)) ≡ ok tt
    → (values ≡ map text (texts values))
      × (texts values ≢ [])
      × (all (λ v. contains v options) (texts values) ≡ true)
      × (distinct (texts values) ≡ true)
      × (length (texts values) ≤ 8)
unfolding validate_multi
multi_ok options [] h = absurd (ground arith)
multi_ok options (text v ∷ vs) h = ground (arith, valid_texts options vs)
multi_ok options (_ ∷ vs) h = absurd (ground arith)

texts-map :
    (options vs : List String)
    → all (λ v. contains v options) vs ≡ true
    → (any_invalid options (map text vs) ≡ false)
      × (texts (map text vs) ≡ vs)
      × (length (map text vs) ≡ length vs)
texts-map options [] h = (refl, refl, refl)
texts-map options (v ∷ vs) h = ground (arith, texts-map options vs)

ok_multi :
    (options vs : List String)
    → vs ≢ []
    → all (λ v. contains v options) vs ≡ true
    → distinct vs ≡ true
    → length vs ≤ 8
    → validate_multi options (some (many (map text vs))) ≡ ok tt
unfolding validate_multi
ok_multi options [] n a d l = absurd (n refl)
ok_multi options (v ∷ vs) n a d l = ground (arith, texts-map options vs)

Fits-of_ok : (t : AnswerType) (q : Question) (a : Answer) → validate_as t q a ≡ ok tt → Fits t q a
unfolding validate_scale validate_text
Fits-of_ok single_choice q a h = single_ok (option_values q) a.selected h
Fits-of_ok multi_choice q a h = elim (Option-cases a.selected) [
  | inl e ↦ absurd (unfold validate_multi in ground arith)
  | inr (one v, e) ↦ absurd (unfold validate_multi in ground arith)
  | inr (many vs, e) ↦
      let (m, n, i, d, l) = multi_ok (option_values q) vs (rw e at h) in
      (texts vs, e ∙ ap (λ x. some (many x)) m, n, i, d, l)
]
Fits-of_ok scale q a h = elim (Option-cases a.value) [
  | inl e ↦ absurd (ground arith)
  | inr (num v, e) ↦ (v, e, ground (arith, e), ground (arith, e))
  | inr (_, e) ↦ absurd (ground arith)
]
Fits-of_ok free_text q a h = elim (Option-cases a.value) [
  | inl e ↦ absurd (ground arith)
  | inr (text s, e) ↦ (s, e, λ p. ground (arith, string_eq_iff (strip s) ""), ground arith)
  | inr (_, e) ↦ absurd (ground arith)
]
Fits-of_ok (unsupported _) q a h = cc

ok-of_Fits : (t : AnswerType) (q : Question) (a : Answer) → Fits t q a → validate_as t q a ≡ ok tt
unfolding validate_single validate_scale validate_text
ok-of_Fits single_choice q a (v, m, inl e) = rw e (ground arith)
ok-of_Fits single_choice q a (v, m, inr e) = rw e (ground arith)
ok-of_Fits multi_choice q a (vs, e, n, i, d, l) = rw e (ok_multi (option_values q) vs n i d l)
ok-of_Fits scale q a (v, e, low, high) = ground (arith, e, low, high)
ok-of_Fits free_text q a (s, e, n, l) = ground (arith, string_eq_iff (strip s) "")
ok-of_Fits (unsupported _) q a f = absurd f

-- An answer is accepted exactly when it fits its question: one option of a single choice; one to
-- eight different options of a multiple choice; a number within the bounds of a scale; a text that is
-- not blank and has at most 500 characters. A question of any other type accepts nothing.
pub validate_answer_iff :
    (question : Question) (answer : Answer)
    → (validate_answer question answer ≡ ok tt) ↔ Fits question.answer_type question answer
unfolding validate_answer
validate_answer_iff question answer = (
  Fits-of_ok question.answer_type question answer,
  ok-of_Fits question.answer_type question answer,
)
