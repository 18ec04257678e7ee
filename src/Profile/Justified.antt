-- ===== src/Profile/Justified.antt =====
-- About the evidence of the preferences in a built profile.
use hotel_server_v.Base.{
  ℕ, String, Bool, true, false, ◌||◌, Option, List, [], ◌∷◌, map, keep, any, is_some, is_empty, ◌≡◌,
  refl, arith, All, keep-All, ◌==◌, string_eq,
}
use hotel_server_v.Base.Dict.{lookup}
use hotel_server_v.Base.Floats.{Floats}
use hotel_server_v.Base.Sort.{sort_by, sort_by-is_empty, sort_by-All}
use hotel_server_v.Base.Text.{text_less}
use hotel_server_v.Onboarding.Branches.{Rendering, Row}
use hotel_server_v.Onboarding.Types.{Location, Signal}
use hotel_server_v.Profile.Answers.{get_list}
use hotel_server_v.Profile.Build.{
  AttributePreference, preference_for, preferences_of, build_profile, tally, counts, weight_less,
  score_less,
}
use hotel_server_v.Profile.Evidence.{BackedAt, tally-IsBacked}

module _ {F : Type 0} where
  more_scores :
      (x : String × F) (d es : List (String × F))
      → All (λ e. is_some (lookup e.0 d) ≡ true) es
      → All (λ e. is_some (lookup e.0 (x ∷ d)) ≡ true) es
  unfolding lookup
  more_scores x d [] h = tt
  more_scores (k, v) d (e ∷ es) h = (ground (arith, h.0), more_scores (k, v) d es h.1)

  own_scores : (d : List (String × F)) → All (λ e. is_some (lookup e.0 d) ≡ true) d
  unfolding lookup
  own_scores [] = tt
  own_scores ((k, v) ∷ d) =
      (ground (arith, string_eq.same_iff k k), more_scores (k, v) d d (own_scores d))

module _ (f : Floats) (r : Rendering) (show_id : ℕ → String) where
  open f use {F}

  -- What a piece of evidence may name: the travel group, or an answered question.
  abbrev pub source : List Row → String → Bool
  source rows e = e == "group" || any (λ row. show_id row.0.id == e) rows

  abbrev pub IsJustified : List Row → AttributePreference F → Type 0
  IsJustified rows p =
      (is_empty p.evidence_question_ids ≡ false)
      × All (λ e. source rows e ≡ true) p.evidence_question_ids

  map-IsJustified :
      (rows : List Row) (es : List (String × F))
      → ((slug : String) → BackedAt f r show_id (source rows) (tally f r show_id rows) slug)
      → All (λ e. is_some (lookup e.0 (tally f r show_id rows).scores) ≡ true) es
      → All
          (IsJustified rows)
          (map (preference_for f r show_id (tally f r show_id rows).evidence) es)
  map-IsJustified rows [] b h = tt
  map-IsJustified rows ((slug, x) ∷ es) b h =
      let evidence = get_list slug (tally f r show_id rows).evidence in
      (
        (
          sort_by-is_empty text_less evidence ((b slug).0 h.0),
          sort_by-All text_less (λ e. source rows e ≡ true) evidence (b slug).1,
        ),
        map-IsJustified rows es b h.1,
      )

  more_rows :
      (row : Row) (rows others : List Row)
      → All (λ x. (source others (show_id x.0.id) ≡ true) × (show_id x.0.id == "" ≡ false)) rows
      → All
          (λ x. (source (row ∷ others) (show_id x.0.id) ≡ true) × (show_id x.0.id == "" ≡ false))
          rows
  more_rows row [] others h = tt
  more_rows row (x ∷ rows) others h =
      ((ground (arith, h.0.0), h.0.1), more_rows row rows others h.1)

  own_rows :
      ((id : ℕ) → show_id id == "" ≡ false)
      → (rows : List Row)
      → All (λ x. (source rows (show_id x.0.id) ≡ true) × (show_id x.0.id == "" ≡ false)) rows
  own_rows n [] = tt
  own_rows n ((q, a) ∷ rows) = (
    (ground (arith, string_eq.same_iff (show_id q.id) (show_id q.id)), n q.id),
    more_rows (q, a) rows rows (own_rows n rows),
  )

  -- Where no identifier is written as the empty text, every preference of a built profile names evidence, and each piece of it is the travel group or a question of the rows it was built from.
  pub build_profile-IsJustified :
      ((id : ℕ) → show_id id == "" ≡ false)
      → (rows : List Row) (location : Option Location) (routing : Option (List (String × Signal)))
      → All (IsJustified rows) (build_profile f r show_id rows location routing).preferences
  unfolding build_profile preferences_of
  build_profile-IsJustified n rows location routing =
      let t = tally f r show_id rows in
      let Scored = λ (e : String × F). is_some (lookup e.0 t.scores) ≡ true in
      let ordered = sort_by (score_less f r show_id) t.scores in
      sort_by-All (weight_less f r show_id) (IsJustified rows)
        (map (preference_for f r show_id t.evidence) (keep (counts f r show_id) ordered))
        (map-IsJustified rows (keep (counts f r show_id) ordered)
          (tally-IsBacked f r show_id (source rows) rows refl (own_rows n rows))
          (keep-All Scored (counts f r show_id) ordered
            (sort_by-All (score_less f r show_id) Scored t.scores (own_scores t.scores))))
