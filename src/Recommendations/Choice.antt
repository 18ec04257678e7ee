-- ===== src/Recommendations/Choice.antt =====
-- About which hotels, and how many, `generate` returns.
use mathlib.Core.List.{Mem, mem-cons_self, mem-cons_of_mem}
use hotel_server_v.Base.{
  none, false, ◌≢◌, All-map, Option-cases, eqb_iff, string_eq, string_eq_iff, ℕ, String, Bool, true,
  ◌&&◌, some, List, [], ◌∷◌, take, keep, any, length, ◌≤◌, ◌≡◌, refl, sym, subst, inl, inr,
  Bool-cases, arith, All, take-All, length-take, suc, nat_eq, ◌==◌,
}
use hotel_server_v.Base.Exec.{ok, request}
use hotel_server_v.Base.Floats.{Floats}
use hotel_server_v.Base.Rational.{Rational}
use hotel_server_v.Trips as TripRows
use hotel_server_v.Trips.{Trip}
use hotel_server_v.Ranking.{RankedHotel}
use hotel_server_v.Recommendations.Tables.{CatalogHotel, HotelSourceMapping, Tables, Filters}
use hotel_server_v.Recommendations.Candidates.{candidates, selected, rating_matches, rated_above}
use hotel_server_v.Recommendations.Names.{IsReadable, candidates-HasName, ranking-IsReadable}
use hotel_server_v.Recommendations.Generated.{generate-Generated}
use hotel_server_v.Recommendations.Service.{
  RecommendationRequest, RecommendationRunRead, generate, preferences_for, results_from,
}

-- What passes a test somewhere in a list is one of its elements.
any-Mem {ℓ} :
    {A : Type ℓ} (p : A → Bool) (xs : List A)
    → any p xs ≡ true
    → (x : A) × (Mem x xs × (p x ≡ true))
any-Mem p [] h = absurd (ground (arith, h))
any-Mem p (x ∷ xs) h = elim (Bool-cases (p x)) [
  | inl e ↦ (x, (mem-cons_self, e))
  | inr e ↦ let (y, (m, q)) = any-Mem p xs (ground (arith, h, e)) in (y, (mem-cons_of_mem x m, q))
]

abbrev has_hotel : (CatalogHotel → Bool) → List CatalogHotel → ℕ → Bool
has_hotel p hotels id = any (λ h. p h && h.id == id) hotels

more-has_hotel :
    (p : CatalogHotel → Bool) (x : CatalogHotel) (hotels hs : List CatalogHotel)
    → All (λ h. has_hotel p hotels h.id ≡ true) hs
    → All (λ h. has_hotel p (x ∷ hotels) h.id ≡ true) hs
more-has_hotel p x hotels [] k = tt
more-has_hotel p x hotels (h ∷ hs) k = (ground (arith, k.0), more-has_hotel p x hotels hs k.1)

keep-has_hotel :
    (p : CatalogHotel → Bool) (hotels : List CatalogHotel)
    → All (λ h. has_hotel p hotels h.id ≡ true) (keep p hotels)
keep-has_hotel p [] = tt
keep-has_hotel p (x ∷ hotels) =
    let Chosen = λ (h : CatalogHotel). has_hotel p (x ∷ hotels) h.id ≡ true in
    let others = more-has_hotel p x hotels (keep p hotels) (keep-has_hotel p hotels) in
    elim (Bool-cases (p x)) [
      | inl e ↦
          let kept : x ∷ keep p hotels ≡ keep p (x ∷ hotels) = ground (arith, e) in
          subst (All Chosen) kept (ground (arith, e), others)
      | inr e ↦
          let kept : keep p hotels ≡ keep p (x ∷ hotels) = ground (arith, e) in
          subst (All Chosen) kept others
    ]

module _ (f : Floats) (show_id : ℕ → String) (to_float : Rational → f.F) where
  -- The table has a row of the hotel, at the trip's destination, active and not deleted, of the wanted
  -- type; and if a rating is required, a source with it that is active.
  pub record IsEligible (trip : Trip) (filters : Filters f.F) (d : Tables f.F) (h : CatalogHotel)
      : Type 0 where
    pub stored : Mem h d.hotels
    pub country : h.country_id ≡ trip.content.destination_country_id
    pub region : (r : ℕ) → trip.content.destination_region_id ≡ some r → h.region_id ≡ r
    pub city : (c : ℕ) → trip.content.destination_city_id ≡ some c → h.city_id ≡ c
    pub active : h.is_active ≡ true
    pub kept : h.deleted_at ≡ none
    pub of_wanted_type : (t : String) → filters.hotel_type ≡ some t → t ≢ "" → h.hotel_type ≡ some t
    pub rated :
        (least : f.F)
        → filters.min_source_rating ≡ some least
        → (m : HotelSourceMapping f.F) × (Mem m d.mappings
            × (m.hotel_id ≡ h.id)
            × (m.is_active ≡ true)
            × (rating : f.F) × ((m.source_rating ≡ some rating) × (f.lt rating least ≡ false)))

  abbrev pub IsChosen : Trip → Filters f.F → Tables f.F → ℕ → Type 0
  IsChosen trip filters d id = (h : CatalogHotel) × ((h.id ≡ id) × IsEligible trip filters d h)

  abbrev IsSelected : Trip → Filters f.F → Tables f.F → ℕ → Type 0
  IsSelected trip filters d id =
      has_hotel (selected f trip.content filters d.mappings) d.hotels id ≡ true

  rated_source :
      (filters : Filters f.F) (d : Tables f.F) (h : CatalogHotel) (least : f.F)
      → rating_matches f (some least) h.id d.mappings ≡ true
      → (m : HotelSourceMapping f.F) × (Mem m d.mappings
          × (m.hotel_id ≡ h.id)
          × (m.is_active ≡ true)
          × (rating : f.F) × ((m.source_rating ≡ some rating) × (f.lt rating least ≡ false)))
  rated_source filters d h least q =
      let test = λ (m : HotelSourceMapping f.F).
        m.hotel_id == h.id && (rated_above f least m && m.is_active) in
      let (m, (k, e)) = any-Mem test d.mappings q in
      elim (Option-cases m.source_rating) [
        | inl n ↦ absurd (ground (arith, e, n))
        | inr (rating, n) ↦ (
          m,
          (
            k,
            ground (arith, e, n, eqb_iff m.hotel_id h.id),
            ground (arith, e, n),
            rating,
            (n, ground (arith, e, n)),
          ),
        )
      ]

  -- What the query selects is eligible.
  selected-IsEligible :
      (trip : Trip) (filters : Filters f.F) (d : Tables f.F) (h : CatalogHotel)
      → Mem h d.hotels
      → selected f trip.content filters d.mappings h ≡ true
      → IsEligible trip filters d h
  selected-IsEligible trip filters d h k e = record {
    stored = k;
    country = ground (arith, e, eqb_iff h.country_id trip.content.destination_country_id);
    region = λ r q. ground (arith, e, q, eqb_iff h.region_id r);
    city = λ c q. ground (arith, e, q, eqb_iff h.city_id c);
    active = ground (arith, e);
    kept = ground (arith, e);
    of_wanted_type = λ t q n. elim (Option-cases h.hotel_type) [
      | inl a ↦ ground (arith, e, q, a, n, string_eq_iff t "")
      | inr (u, a) ↦ ground (arith, e, q, a, n, string_eq_iff t "", string_eq_iff u t)
    ];
    rated = λ least q. rated_source filters d h least (ground (arith, e, q));
  }

  selected-IsChosen :
      (trip : Trip) (filters : Filters f.F) (d : Tables f.F) (id : ℕ)
      → IsSelected trip filters d id
      → IsChosen trip filters d id
  selected-IsChosen trip filters d id q =
      let test = λ (h : CatalogHotel). selected f trip.content filters d.mappings h && h.id == id in
      let (h, (k, e)) = any-Mem test d.hotels q in
      (
        h,
        (
          ground (arith, e, eqb_iff h.id id),
          selected-IsEligible trip filters d h k (ground (arith, e)),
        ),
      )

  length-results_from :
      (n : ℕ) (hs : List (RankedHotel f.F))
      → length (results_from f show_id to_float n hs) ≡ length hs
  unfolding results_from
  length-results_from n [] = refl
  length-results_from n (h ∷ hs) = ground (arith, length-results_from (suc n) hs)

  results_from-All :
      (P : ℕ → Type 0) (n : ℕ) (hs : List (RankedHotel f.F))
      → All (IsReadable f show_id to_float (λ id name. P id)) hs
      → All (λ r. P r.hotel_id) (results_from f show_id to_float n hs)
  unfolding results_from
  results_from-All P n [] k = tt
  results_from-All P n (h ∷ hs) k = (k.0.0, results_from-All P (suc n) hs k.1)

  -- A successful `generate` is for a trip of the user that is not deleted, returns at most as many hotels as the request's limit, and for every one of them the table has an active, undeleted hotel at the country, and the region and city if given, of the trip, of the wanted type if one is given, and with an active source of the required rating if one is required.
  pub generate-IsChosen :
      (now new_id user : ℕ) (payload : RecommendationRequest f.F) (before after : Tables f.F)
      (r : RecommendationRunRead f.F)
      → request (generate f show_id to_float now new_id user payload) before ≡ (ok r, after)
      → (trip : Trip) × (TripRows.get_owned payload.trip_id user before.trips ≡ some trip)
        × (length r.results ≤ payload.filters.limit)
        × All (λ x. IsChosen trip payload.filters before x.hotel_id) r.results
  generate-IsChosen now new_id user payload before after r q =
      let g = generate-Generated f show_id to_float now new_id user payload before after r q in
      let Q = λ (id : ℕ) (name : String). IsSelected g.trip payload.filters before id in
      let rows = candidates f g.trip.content g.algorithm.id payload.filters before in
      let ps = preferences_for f show_id to_float user g.trip.id before in
      let hs = take payload.filters.limit g.ranked in
      let test = selected f g.trip.content payload.filters before.mappings in
      let chosen =
        candidates-HasName f show_id to_float Q g.trip.content g.algorithm.id payload.filters before
          (keep-has_hotel test before.hotels) in
      let readable =
        take-All (IsReadable f show_id to_float Q) payload.filters.limit g.ranked
          (ranking-IsReadable f show_id to_float Q rows ps g.ranked chosen g.ranks) in
      (
        g.trip,
        g.owned,
        ground (
          arith,
          g.returned,
          length-results_from 1 hs,
          length-take payload.filters.limit g.ranked,
        ),
        subst (λ x. All (λ y. IsChosen g.trip payload.filters before y.hotel_id) x.results)
            (sym g.returned)
            (All-map (λ x. selected-IsChosen g.trip payload.filters before x.hotel_id)
              (results_from f show_id to_float 1 hs)
              (results_from-All (IsSelected g.trip payload.filters before) 1 hs readable)),
      )
