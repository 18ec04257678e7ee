-- ===== src/Recommendations/Names.antt =====
-- About the names and the source columns that a ranking carries, against the table of hotels.
use hotel_server_v.Base.{
  ℕ, String, Bool, Option, none, some, List, [], ◌∷◌, map, keep, find, ◌≡◌, refl, subst, inl, inr,
  Bool-cases, Option-cases, arith, All, All-append, keep-All, take-All, ltb, nat_eq, ◌==◌, contains,
}
use hotel_server_v.Base.Dict.{lookup, Entries, lookup-Entries, insert-Entries}
use hotel_server_v.Base.Exec.{ok, ok-inj}
use hotel_server_v.Base.Floats.{Floats, whole}
use hotel_server_v.Base.Rational.{Rational}
use hotel_server_v.Base.Sort.{sort_by, sort_by-All}
use hotel_server_v.Trips.{TripWrite}
use hotel_server_v.Ranking.{
  Candidate, EffectivePreference, RankedHotel, Hotel, Score, add_row, group_rows, row_score,
  with_score, hotel_of, collect, no_totals, rank_one, rank_all, append_ranked, rank_less,
  rank_hotels, total_of,
}
use hotel_server_v.Ranking.Order.{rank_hotels-ok}
use hotel_server_v.Recommendations.Tables.{CatalogHotel, HotelAttributeScore, Filters, Tables}
use hotel_server_v.Recommendations.Candidates.{
  scored_row, joined, hotel_rows, all_rows, selected, select_hotels, candidate_limit, candidates,
}
use hotel_server_v.Recommendations.Service.{rank_without_preferences, ranking}

-- Every hotel is the one that its identifier finds.
abbrev pub IsKeyed : List CatalogHotel → Type 0
IsKeyed hotels = All (λ h. find (λ x. x.id == h.id) hotels ≡ some h) hotels

abbrev pub name_of : Option CatalogHotel → Option String
name_of none = none
name_of (some h) = some h.name

abbrev pub IsNamed : List CatalogHotel → ℕ → String → Type 0
IsNamed hotels id name = name_of (find (λ x. x.id == id) hotels) ≡ some name

keyed-IsNamed :
    (hotels hs : List CatalogHotel)
    → All (λ h. find (λ x. x.id == h.id) hotels ≡ some h) hs
    → All (λ h. IsNamed hotels h.id h.name) hs
keyed-IsNamed hotels [] k = tt
keyed-IsNamed hotels (h ∷ hs) k = (ground (arith, k.0), keyed-IsNamed hotels hs k.1)

-- The hotels that a test keeps, in any table that is keyed.
pub keep-IsNamed :
    (p : CatalogHotel → Bool) (hotels : List CatalogHotel)
    → IsKeyed hotels
    → All (λ h. IsNamed hotels h.id h.name) (keep p hotels)
keep-IsNamed p hotels k =
    keep-All (λ h. IsNamed hotels h.id h.name) p hotels (keyed-IsNamed hotels hotels k)

-- `Q` is a property of a hotel's identifier and name.
module _ (f : Floats) (show_id : ℕ → String) (to_float : Rational → f.F)
    (Q : ℕ → String → Type 0) where
  abbrev pub HasName : Candidate f.F → Type 0
  HasName row = Q row.hotel_id row.name

  -- A result that can be read back from its explanation and the table of hotels.
  abbrev pub IsReadable : RankedHotel f.F → Type 0
  IsReadable r =
      Q r.hotel_id r.name
      × (r.explanation.source_rating ≡ r.source_rating)
      × (r.explanation.source_review_count ≡ r.source_review_count)
      × (r.explanation.source_rank ≡ r.source_rank)

  scored-HasName :
      (d : Tables f.F) (row : Candidate f.F) (ss : List (HotelAttributeScore f.F))
      → HasName row
      → All HasName (map (scored_row f d.attributes row) ss)
  scored-HasName d row [] h = tt
  scored-HasName d row (s ∷ ss) h = (h, scored-HasName d row ss h)

  joined-HasName :
      (d : Tables f.F) (row : Candidate f.F) (ss : List (HotelAttributeScore f.F))
      → HasName row
      → All HasName (joined f d.attributes row ss)
  joined-HasName d row [] h = (h, tt)
  joined-HasName d row (s ∷ ss) h = scored-HasName d row (s ∷ ss) h

  all_rows-HasName :
      (algorithm : ℕ) (d : Tables f.F) (hs : List CatalogHotel)
      → All (λ h. Q h.id h.name) hs
      → All HasName (all_rows f algorithm d hs)
  unfolding all_rows
  all_rows-HasName algorithm d [] k = tt
  all_rows-HasName algorithm d (h ∷ hs) k =
      All-append HasName (hotel_rows f algorithm d h) (all_rows f algorithm d hs)
        (joined-HasName d _ _ k.0) (all_rows-HasName algorithm d hs k.1)

  pub candidates-HasName :
      (trip : TripWrite) (algorithm : ℕ) (filters : Filters f.F) (d : Tables f.F)
      → All (λ h. Q h.id h.name) (keep (selected f trip filters d.mappings) d.hotels)
      → All HasName (candidates f trip algorithm filters d)
  unfolding candidates select_hotels
  candidates-HasName trip algorithm filters d k =
      let Has = λ (h : CatalogHotel). Q h.id h.name in
      let chosen = keep (selected f trip filters d.mappings) d.hotels in
      all_rows-HasName algorithm d (select_hotels f trip filters d.hotels d.mappings) (
        take-All Has candidate_limit (sort_by (λ a b. ltb a.id b.id) chosen)
          (sort_by-All (λ a b. ltb a.id b.id) Has chosen k))

  abbrev Known : ℕ → Hotel f.F → Type 0
  Known id h = Q id h.name

  with_score-Known :
      (id : ℕ) (o : Option (ℕ × Score f.F)) (h : Hotel f.F)
      → Known id h
      → Known id (with_score f show_id o h)
  with_score-Known id none h k = k
  with_score-Known id (some s) h k = k

  hotel_of-Known :
      (row : Candidate f.F) (d : List (ℕ × Hotel f.F))
      → HasName row
      → Entries Known d
      → Known row.hotel_id (hotel_of f show_id row d)
  hotel_of-Known row d h k = elim (Option-cases (lookup row.hotel_id d)) [
    | inl e ↦ rw (e, hotel_of) h
    | inr (x, e) ↦ rw (e, hotel_of) (lookup-Entries Known row.hotel_id d x k e)
  ]

  group_rows-Known :
      (d : List (ℕ × Hotel f.F)) (rows : List (Candidate f.F))
      → Entries Known d
      → All HasName rows
      → Entries Known (group_rows f show_id d rows)
  unfolding group_rows add_row
  group_rows-Known d [] k h = k
  group_rows-Known d (row ∷ rows) k h =
      let before = hotel_of f show_id row d in
      let after = with_score f show_id (row_score f show_id row) before in
      let known =
        with_score-Known row.hotel_id (row_score f show_id row) before
          (hotel_of-Known row d h.0 k) in
      group_rows-Known (add_row f show_id row d) rows
        (insert-Entries Known row.hotel_id after d known k) h.1

  rank_one-IsReadable :
      (id : ℕ) (h : Hotel f.F) (ps : List (EffectivePreference f.F)) (total : f.F)
      (r : RankedHotel f.F)
      → Known id h
      → rank_one f show_id id h ps total ≡ some r
      → IsReadable r
  unfolding rank_one
  rank_one-IsReadable id h ps total r k q =
      elim (Option-cases (collect f show_id h.scores (no_totals f show_id) ps)) [
        | inl e ↦ ground (arith, e, q)
        | inr (t, e) ↦ ground (arith, e, q, k)
      ]

  append_ranked-IsReadable :
      (o : Option (RankedHotel f.F)) (rs : List (RankedHotel f.F))
      → ((r : RankedHotel f.F) → o ≡ some r → IsReadable r)
      → All IsReadable rs
      → All IsReadable (append_ranked f show_id o rs)
  append_ranked-IsReadable none rs h k = k
  append_ranked-IsReadable (some r) rs h k = (h r refl, k)

  rank_all-IsReadable :
      (d : List (ℕ × Hotel f.F)) (ps : List (EffectivePreference f.F)) (total : f.F)
      → Entries Known d
      → All IsReadable (rank_all f show_id d ps total)
  unfolding rank_all
  rank_all-IsReadable [] ps total k = tt
  rank_all-IsReadable ((id, h) ∷ d) ps total k =
      append_ranked-IsReadable (rank_one f show_id id h ps total) (rank_all f show_id d ps total)
        (λ r q. rank_one-IsReadable id h ps total r k.0 q) (rank_all-IsReadable d ps total k.1)

  rank_hotels-IsReadable :
      (rows : List (Candidate f.F)) (ps : List (EffectivePreference f.F))
      (hs : List (RankedHotel f.F))
      → All HasName rows
      → rank_hotels f show_id rows ps ≡ ok hs
      → All IsReadable hs
  rank_hotels-IsReadable rows ps hs h q =
      let total = total_of f show_id (whole f 0) ps in
      let d = group_rows f show_id [] rows in
      rw (← rank_hotels-ok f show_id rows ps hs q) (
        sort_by-All (rank_less f show_id) IsReadable (rank_all f show_id d ps total)
          (rank_all-IsReadable d ps total (group_rows-Known [] rows tt h)))

  unranked-IsReadable :
      (seen : List ℕ) (rows : List (Candidate f.F))
      → All HasName rows
      → All IsReadable (rank_without_preferences f show_id to_float seen rows)
  unfolding rank_without_preferences
  unranked-IsReadable seen [] h = tt
  unranked-IsReadable seen (row ∷ rows) h = elim (Bool-cases (contains row.hotel_id seen)) [
    | inl e ↦ rw e (unranked-IsReadable seen rows h.1)
    | inr e ↦ rw e ((h.0, refl, refl, refl), unranked-IsReadable (row.hotel_id ∷ seen) rows h.1)
  ]

  pub ranking-IsReadable :
      (rows : List (Candidate f.F)) (ps : List (EffectivePreference f.F))
      (hs : List (RankedHotel f.F))
      → All HasName rows
      → ranking f show_id to_float rows ps ≡ ok hs
      → All IsReadable hs
  unfolding ranking
  ranking-IsReadable rows [] hs h q =
      subst (All IsReadable) (ok-inj q) (unranked-IsReadable [] rows h)
  ranking-IsReadable rows (p ∷ ps) hs h q = rank_hotels-IsReadable rows (p ∷ ps) hs h q
