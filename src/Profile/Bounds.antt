-- ===== src/Profile/Bounds.antt =====
-- About the preferences of a built profile.
use hotel_server_v.Base.{
  ℕ, String, true, false, Option, List, [], ◌∷◌, map, keep, contains, ◌≡◌, refl, inl, inr,
  Bool-cases, arith, All, string_eq,
}
use hotel_server_v.Base.Floats.{Floats, whole, float_min, IsOrdered}
use hotel_server_v.Base.Sort.{sort_by, sort_by-All}
use hotel_server_v.Onboarding.Branches.{Rendering, Row}
use hotel_server_v.Onboarding.Types.{Location, Signal}
use hotel_server_v.Profile.Effects.{supported_attribute_slugs}
use hotel_server_v.Profile.Build.{
  AttributePreference, preference_for, preferences_of, counts, weight_less, score_less,
  build_profile, tally,
}

-- `round(x, k)` is not above 1 where `x` is not.
abbrev pub RoundsBelowOne : Floats → Type 0
RoundsBelowOne f =
    (k : ℕ) (x : f.F) → f.lt (whole f 1) x ≡ false → f.lt (whole f 1) (f.rounded k x) ≡ false

module _ (f : Floats) (r : Rendering) (show_id : ℕ → String) where
  open f use {F, lt, rounded, divide}

  abbrev pub IsBounded : AttributePreference F → Type 0
  IsBounded p =
      (contains p.attribute_slug supported_attribute_slugs ≡ true)
      × (lt (whole f 1) p.importance_weight ≡ false)
      × (p.is_mandatory ≡ false)

  min-below : IsOrdered f → (x : F) → lt (whole f 1) (float_min f (whole f 1) x) ≡ false
  min-below o x = ground (arith, o.asymmetric x (whole f 1), o.asymmetric (whole f 1) (whole f 1))

  map-IsBounded :
      IsOrdered f
      → RoundsBelowOne f
      → (evidence : List (String × List String)) (scores : List (String × F))
      → All IsBounded (map (preference_for f r show_id evidence) (keep (counts f r show_id) scores))
  map-IsBounded o rounds evidence [] = tt
  map-IsBounded o rounds evidence ((slug, x) ∷ scores) =
      let rest = map-IsBounded o rounds evidence scores in
      let below = rounds 4 _ (min-below o (divide x (whole f 3))) in
      elim (Bool-cases (counts f r show_id (slug, x))) [
        | inl e ↦ rw e ((ground (arith, e), below, refl), rest)
        | inr e ↦ rw e rest
      ]

  -- Where < is a total order and rounding a number that is not above 1 does not bring it above 1, every preference of a built profile is for a supported attribute, has a weight not above 1 and is not mandatory.
  pub build_profile-IsBounded :
      IsOrdered f
      → RoundsBelowOne f
      → (rows : List Row) (location : Option Location) (routing : Option (List (String × Signal)))
      → All IsBounded (build_profile f r show_id rows location routing).preferences
  unfolding build_profile preferences_of
  build_profile-IsBounded o rounds rows location routing =
      let t = tally f r show_id rows in
      sort_by-All (weight_less f r show_id) IsBounded
        (map (preference_for f r show_id t.evidence)
          (keep (counts f r show_id) (sort_by (score_less f r show_id) t.scores)))
        (map-IsBounded o rounds t.evidence (sort_by (score_less f r show_id) t.scores))
