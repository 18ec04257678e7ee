-- ===== src/Profile/Build.antt =====
-- `build_deterministic_adaptive_profile` of services/adaptive_preferences.py.
use hotel_server_v.Base.{
  ℕ, String, Bool, true, false, ◌&&◌, ◌||◌, Option, none, some, List, [], ◌∷◌, ◌++◌, map, keep,
  contains, ltb, eqb, ◌==◌, string_eq, if◌then◌else◌,
}
use hotel_server_v.Base.Comparison.{first_or_rest}
use hotel_server_v.Base.Dict.{lookup, insert}
use hotel_server_v.Base.Floats.{Floats, whole, float_min}
use hotel_server_v.Base.Sort.{sort_by}
use hotel_server_v.Base.Text.{text_less, starts_with}
use hotel_server_v.Onboarding.Types.{Question, Location, Signal}
use hotel_server_v.Onboarding.Branches.{Rendering, Row}
use hotel_server_v.Profile.Effects.{
  Effects, supported_attribute_slugs, group_effects, key_dimensions,
}
use hotel_server_v.Profile.Summary.{Context, profile_context, profile_summary}
use hotel_server_v.Profile.Answers.{
  get_list, answer_values, dimensions_for, profile_question_key, effects_for, dimension_effects,
}

-- The local variables of the loop.
pub record Tallies (F : Type 0) : Type 0 where
  pub scores : List (String × F)
  pub evidence : List (String × List String)
  pub canonical_scores : List (String × F)
  pub values : List (String × List String)
  pub seen_questions : List String

pub record AttributePreference (F : Type 0) : Type 0 where
  pub attribute_slug : String
  pub importance_weight : F
  pub preferred_value : Option String
  pub is_mandatory : Bool
  pub confidence : F
  pub evidence_question_ids : List String

pub record Signals (F : Type 0) : Type 0 where
  pub canonical_scores : List (String × F)
  pub answers : List (String × List String)
  pub routing_state : List (String × Signal)

-- `DeterministicAdaptiveProfile`
pub record Profile (F : Type 0) : Type 0 where
  pub profile_summary : String
  pub confidence : F
  pub context : Context
  pub preferences : List (AttributePreference F)
  pub unresolved_attributes : List String
  pub signals : Signals F

module _ (f : Floats) (r : Rendering) (show_id : ℕ → String) where
  open f use {F, decimal, negate, add, divide, rounded, lt, equal}

  abbrev pub no_tallies : Tallies F
  no_tallies = record {
    scores = [];
    evidence = [];
    canonical_scores = [];
    values = [];
    seen_questions = [];
  }

  abbrev pub or_zero : Option F → F
  or_zero none = whole f 0
  or_zero (some x) = x

  -- `d[k] = d.get(k, 0.0) + x`
  abbrev pub increase : String → F → List (String × F) → List (String × F)
  increase k x d = insert k (add (or_zero (lookup k d)) x) d

  abbrev pub with_member : String → List String → List String
  with_member x xs = if contains x xs then xs else xs ++ x ∷ []

  abbrev pub add_effect : String → String → F → Tallies F → Tallies F
  add_effect id slug points t =
      if contains slug supported_attribute_slugs
      then record t {
        scores = increase slug points t.scores;
        evidence =
            if id == ""
            then t.evidence
            else insert slug (with_member id (get_list slug t.evidence)) t.evidence;
      }
      else t

  -- `_add_effects`
  unfoldable pub add_effects : String → Effects → Tallies F → Tallies F
  unfolding supported_attribute_slugs
  add_effects id [] t = t
  add_effects id ((slug, points) ∷ es) t =
      add_effects id es (add_effect id slug (decimal points 2) t)

  unfoldable pub count_dimensions : List String → List (String × F) → List (String × F)
  count_dimensions [] d = d
  count_dimensions (x ∷ xs) d = count_dimensions xs (increase x (whole f 1) d)

  abbrev pub or_dimensions : Effects → List String → Effects
  or_dimensions [] dimensions = dimension_effects r dimensions
  or_dimensions (e ∷ es) dimensions = e ∷ es

  -- The body of the loop over the values of one answer.
  abbrev pub add_value : String → String → List String → String → Tallies F → Tallies F
  add_value id key dimensions v t =
      let scored = add_effects id (or_dimensions (effects_for r key v) dimensions) t in
      record scored {
        canonical_scores =
            count_dimensions (get_list key key_dimensions ++ dimensions) scored.canonical_scores;
      }

  unfoldable pub add_values : String → String → List String → List String → Tallies F → Tallies F
  unfolding add_effects count_dimensions effects_for dimension_effects key_dimensions
  add_values id key dimensions [] t = t
  add_values id key dimensions (v ∷ vs) t =
      add_values id key dimensions vs (add_value id key dimensions v t)

  abbrev pub extend : List String → List String → List String
  extend xs [] = xs
  extend xs (v ∷ vs) = extend (with_member v xs) vs

  abbrev pub add_answer : String → String → Question → List String → Tallies F → Tallies F
  add_answer id key q [] t = t
  add_answer id key q (v ∷ vs) t =
      add_values id key (dimensions_for r q) (v ∷ vs)
        (record t { values = insert key (extend (get_list key t.values) (v ∷ vs)) t.values })

  -- A row with its key, unless the question was seen.
  abbrev pub add_keyed : Option String → Row → Tallies F → Tallies F
  add_keyed none row t = t
  add_keyed (some key) (q, row) t =
      let id = show_id q.id in
      if contains id t.seen_questions
      then t
      else add_answer id key q (answer_values r row.answer)
          (record t { seen_questions = id ∷ t.seen_questions })

  -- The body of the loop over the rows.
  unfoldable pub add_row : Row → Tallies F → Tallies F
  unfolding profile_question_key answer_values dimensions_for add_values
  add_row (q, row) t = add_keyed (profile_question_key r q row.answer) (q, row) t

  unfoldable pub add_rows : List Row → Tallies F → Tallies F
  unfolding add_row
  add_rows [] t = t
  add_rows (row ∷ rows) t = add_rows rows (add_row row t)

  abbrev pub with_kids : Bool → Tallies F → Tallies F
  with_kids false t = t
  with_kids true t = record t { canonical_scores = increase "kids" (whole f 1) t.canonical_scores }

  unfoldable pub add_group : String → Tallies F → Tallies F
  unfolding add_effects group_effects starts_with
  add_group group t =
      with_kids (starts_with "family" group) (add_effects "group" (get_list group group_effects) t)

  unfoldable pub add_groups : List String → Tallies F → Tallies F
  unfolding add_group
  add_groups [] t = t
  add_groups (g ∷ gs) t = add_groups gs (add_group g t)

  abbrev pub row_less : Row → Row → Bool
  row_less (p, a) (q, b) =
      first_or_rest (eqb p.position q.position) (ltb p.position q.position)
        (text_less (show_id p.id) (show_id q.id))

  -- The tallies after both loops.
  unfoldable pub tally : List Row → Tallies F
  unfolding add_rows add_groups
  tally rows =
      let t = add_rows (sort_by row_less rows) no_tallies in
      add_groups (get_list "travel_group" t.values) t

  abbrev pub score_less : String × F → String × F → Bool
  score_less (s, x) (t, y) =
      first_or_rest (equal (negate x) (negate y)) (lt (negate x) (negate y)) (text_less s t)

  abbrev pub counts : String × F → Bool
  counts (slug, x) = contains slug supported_attribute_slugs && lt (whole f 0) x

  abbrev pub preference_for : List (String × List String) → String × F → AttributePreference F
  preference_for evidence (slug, x) = record {
    attribute_slug = slug;
    importance_weight = rounded 4 (float_min f (whole f 1) (divide x (whole f 3)));
    preferred_value = none;
    is_mandatory = false;
    confidence = whole f 1;
    evidence_question_ids = sort_by text_less (get_list slug evidence);
  }

  abbrev pub weight_less : AttributePreference F → AttributePreference F → Bool
  weight_less a b =
      first_or_rest (equal (negate a.importance_weight) (negate b.importance_weight))
        (lt (negate a.importance_weight) (negate b.importance_weight))
        (text_less a.attribute_slug b.attribute_slug)

  unfoldable pub preferences_of : Tallies F → List (AttributePreference F)
  unfolding supported_attribute_slugs
  preferences_of t =
      sort_by weight_less
        (map (preference_for t.evidence) (keep counts (sort_by score_less t.scores)))

  abbrev names_of : List (String × F) → List String
  names_of d = map (λ e. e.0) d

  unfoldable pub unresolved_of : Tallies F → List String
  unresolved_of t =
      sort_by text_less (keep (λ d. d == "price" || d == "kids") (names_of t.canonical_scores))

  abbrev routing_or_empty : Option (List (String × Signal)) → List (String × Signal)
  routing_or_empty none = []
  routing_or_empty (some s) = s

  unfoldable pub build_profile :
      List Row → Option Location → Option (List (String × Signal)) → Profile F
  unfolding tally preferences_of unresolved_of profile_context profile_summary
  build_profile rows location routing =
      let t = tally rows in
      let context = profile_context location t.values in
      record {
        profile_summary = profile_summary context t.values;
        confidence = whole f 1;
        context = context;
        preferences = preferences_of t;
        unresolved_attributes = unresolved_of t;
        signals = record {
          canonical_scores =
              map (λ e. (e.0, rounded 4 e.1))
                (sort_by (λ a b. text_less a.0 b.0) t.canonical_scores);
          answers = sort_by (λ a b. text_less a.0 b.0) t.values;
          routing_state = routing_or_empty routing;
        };
      }
