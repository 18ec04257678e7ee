-- ===== src/Profile/Evidence.antt =====
-- About the evidence that a built profile gives for its preferences.
use hotel_server_v.Base.{
  ℕ, String, Bool, true, false, ◌||◌, Option, none, some, List, [], ◌∷◌, is_some, is_empty,
  contains, ◌≡◌, refl, sym, subst, inl, inr, Bool-cases, arith, All, All-append, ◌==◌, string_eq,
  if◌then◌else◌,
}
use hotel_server_v.Base.Dict.{lookup, insert, lookup-insert}
use hotel_server_v.Base.Floats.{Floats}
use hotel_server_v.Base.Sort.{sort_by, sort_by-All}
use hotel_server_v.Base.Text.{starts_with}
use hotel_server_v.Onboarding.Branches.{Rendering, Row}
use hotel_server_v.Onboarding.Types.{Question}
use hotel_server_v.Profile.Answers.{
  get_list, profile_question_key, effects_for, dimensions_for, answer_values,
}
use hotel_server_v.Profile.Effects.{Effects, group_effects, supported_attribute_slugs}
use hotel_server_v.Profile.Build.{
  or_zero, add_value, add_keyed, or_dimensions, extend, with_kids, row_less, Tallies, add_effect,
  add_effects, add_values, add_answer, add_row, add_rows, add_group, add_groups, no_tallies, tally,
  with_member,
}

module _ (f : Floats) (r : Rendering) (show_id : ℕ → String) (source : String → Bool) where
  open f use {F}

  -- A score has evidence, and all of it is from a source.
  abbrev pub BackedAt : Tallies F → String → Type 0
  BackedAt t slug =
      (is_some (lookup slug t.scores) ≡ true → is_empty (get_list slug t.evidence) ≡ false)
      × All (λ e. source e ≡ true) (get_list slug t.evidence)

  abbrev pub IsBacked : Tallies F → Type 0
  IsBacked t = (slug : String) → BackedAt t slug

  with_member-All :
      (id : String) (xs : List String)
      → source id ≡ true
      → All (λ e. source e ≡ true) xs
      → All (λ e. source e ≡ true) (with_member f r show_id id xs)
  with_member-All id xs s h = elim (Bool-cases (contains id xs)) [
    | inl e ↦ rw e h
    | inr e ↦ rw e (All-append (λ e. source e ≡ true) xs (id ∷ []) h (s, tt))
  ]

  with_member-is_empty :
      (id : String) (xs : List String) → is_empty (with_member f r show_id id xs) ≡ false
  with_member-is_empty id [] = refl
  with_member-is_empty id (x ∷ xs) = ground arith

  module _ (id slug : String) (points : F) (t : Tallies F) (n : id == "" ≡ false)
      (e : contains slug supported_attribute_slugs ≡ true) where
    abbrev after_effect : Tallies F
    after_effect = add_effect f r show_id id slug points t

    evidence-add_effect :
        (other : String)
        → get_list other after_effect.evidence ≡ (
            if slug == other
            then with_member f r show_id id (get_list slug t.evidence)
            else get_list other t.evidence)
    evidence-add_effect other = ground (
      arith,
      n,
      e,
      lookup-insert slug other (with_member f r show_id id (get_list slug t.evidence)) t.evidence,
    )

    scores-add_effect :
        (other : String)
        → is_some (lookup other after_effect.scores)
          ≡ (slug == other || is_some (lookup other t.scores))
    scores-add_effect other = ground (
      arith,
      n,
      e,
      lookup-insert slug other (f.add (or_zero f r show_id (lookup slug t.scores)) points) t.scores,
    )

    supported-BackedAt :
        source id ≡ true → IsBacked t → (other : String) → BackedAt after_effect other
    supported-BackedAt s h other = elim (Bool-cases (slug == other)) [
      | inl q ↦
          let same : get_list other after_effect.evidence
              ≡ with_member f r show_id id (get_list slug t.evidence) =
            ground (arith, q, evidence-add_effect other) in
          (
            λ k. ground (arith, same, with_member-is_empty id (get_list slug t.evidence)),
            subst (All (λ e. source e ≡ true)) (sym same)
                (with_member-All id (get_list slug t.evidence) s (h slug).1),
          )
      | inr q ↦
          let same : get_list other after_effect.evidence ≡ get_list other t.evidence =
            ground (arith, q, evidence-add_effect other) in
          (
            λ k. ground (arith, same, k, q, scores-add_effect other, (h other).0),
            subst (All (λ e. source e ≡ true)) (sym same) (h other).1,
          )
    ]

  add_effect-IsBacked :
      (id slug : String) (points : F) (t : Tallies F)
      → source id ≡ true
      → id == "" ≡ false
      → IsBacked t
      → IsBacked (add_effect f r show_id id slug points t)
  add_effect-IsBacked id slug points t s n h other =
      elim (Bool-cases (contains slug supported_attribute_slugs)) [
        | inl e ↦ supported-BackedAt id slug points t n e s h other
        | inr e ↦ rw e (h other)
      ]

  add_effects-IsBacked :
      (id : String) (es : Effects) (t : Tallies F)
      → source id ≡ true
      → id == "" ≡ false
      → IsBacked t
      → IsBacked (add_effects f r show_id id es t)
  unfolding add_effects
  add_effects-IsBacked id [] t s n h = h
  add_effects-IsBacked id ((slug, points) ∷ es) t s n h =
      add_effects-IsBacked id es (add_effect f r show_id id slug (f.decimal points 2) t) s n
        (add_effect-IsBacked id slug (f.decimal points 2) t s n h)

  add_values-IsBacked :
      (id key : String) (dimensions values : List String) (t : Tallies F)
      → source id ≡ true
      → id == "" ≡ false
      → IsBacked t
      → IsBacked (add_values f r show_id id key dimensions values t)
  unfolding add_values
  add_values-IsBacked id key dimensions [] t s n h = h
  add_values-IsBacked id key dimensions (v ∷ vs) t s n h =
      let effects = or_dimensions f r show_id (effects_for r key v) dimensions in
      add_values-IsBacked id key dimensions vs (add_value f r show_id id key dimensions v t) s n
        (add_effects-IsBacked id effects t s n h)

  add_answer-IsBacked :
      (id key : String) (q : Question) (values : List String) (t : Tallies F)
      → source id ≡ true
      → id == "" ≡ false
      → IsBacked t
      → IsBacked (add_answer f r show_id id key q values t)
  add_answer-IsBacked id key q [] t s n h = h
  add_answer-IsBacked id key q (v ∷ vs) t s n h =
      let more = extend f r show_id (get_list key t.values) (v ∷ vs) in
      add_values-IsBacked id key (dimensions_for r q) (v ∷ vs)
        (record t { values = insert key more t.values }) s n h

  add_keyed-IsBacked :
      (o : Option String) (row : Row) (t : Tallies F)
      → source (show_id row.0.id) ≡ true
      → show_id row.0.id == "" ≡ false
      → IsBacked t
      → IsBacked (add_keyed f r show_id o row t)
  add_keyed-IsBacked none row t s n h = h
  add_keyed-IsBacked (some key) (q, row) t s n h =
      elim (Bool-cases (contains (show_id q.id) t.seen_questions)) [
        | inl k ↦ rw k h
        | inr k ↦ rw k (
            add_answer-IsBacked (show_id q.id) key q (answer_values r row.answer)
              (record t { seen_questions = show_id q.id ∷ t.seen_questions }) s n h)
      ]

  -- The rows have identifiers that are no empty texts, and that are sources.
  abbrev AreSources : List Row → Type 0
  AreSources rows =
      All (λ row. (source (show_id row.0.id) ≡ true) × (show_id row.0.id == "" ≡ false)) rows

  add_rows-IsBacked :
      (rows : List Row) (t : Tallies F)
      → AreSources rows
      → IsBacked t
      → IsBacked (add_rows f r show_id rows t)
  unfolding add_rows add_row
  add_rows-IsBacked [] t s h = h
  add_rows-IsBacked ((q, row) ∷ rows) t s h =
      let key = profile_question_key r q row.answer in
      add_rows-IsBacked rows (add_row f r show_id (q, row) t) s.1
        (add_keyed-IsBacked key (q, row) t s.0.0 s.0.1 h)

  with_kids-IsBacked :
      (b : Bool) (t : Tallies F) → IsBacked t → IsBacked (with_kids f r show_id b t)
  with_kids-IsBacked false t h = h
  with_kids-IsBacked true t h = h

  add_groups-IsBacked :
      (groups : List String) (t : Tallies F)
      → source "group" ≡ true
      → IsBacked t
      → IsBacked (add_groups f r show_id groups t)
  unfolding add_groups add_group
  add_groups-IsBacked [] t s h = h
  add_groups-IsBacked (g ∷ gs) t s h =
      let effects = get_list g group_effects in
      let scored = add_effects f r show_id "group" effects t in
      add_groups-IsBacked gs (add_group f r show_id g t) s (
        with_kids-IsBacked (starts_with "family" g) scored
          (add_effects-IsBacked "group" effects t s refl h))

  no_tallies-IsBacked : IsBacked (no_tallies f r show_id)
  unfolding lookup
  no_tallies-IsBacked slug = (λ k. ground (arith, k), tt)

  pub tally-IsBacked :
      (rows : List Row)
      → source "group" ≡ true
      → AreSources rows
      → IsBacked (tally f r show_id rows)
  unfolding tally
  tally-IsBacked rows g s =
      let ordered = sort_by (row_less f r show_id) rows in
      let IsSource =
        λ (row : Row). (source (show_id row.0.id) ≡ true) × (show_id row.0.id == "" ≡ false) in
      let t = add_rows f r show_id ordered (no_tallies f r show_id) in
      add_groups-IsBacked (get_list "travel_group" t.values) t g (
        add_rows-IsBacked ordered (no_tallies f r show_id)
          (sort_by-All (row_less f r show_id) IsSource rows s) no_tallies-IsBacked)
