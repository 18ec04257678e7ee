-- ===== src/Ranking/Order.antt =====
-- About the order in which `rank_hotels` returns the hotels.
use hotel_server_v.Base.{
  ℕ, String, Bool, true, false, Option, none, some, List, [], ◌∷◌, ltb, ◌≤◌, ◌≡◌, refl, All,
  All-map, inl, inr, Bool-cases, arith,
}
use hotel_server_v.Base.Comparison.{IsComparison, first_or_rest, first_or_rest-IsStrict}
use hotel_server_v.Base.Floats.{Floats, IsOrdered, Negates, whole}
use hotel_server_v.Base.Sort.{IsStrict, IsSorted, sort_by, sort_by-IsSorted}
use hotel_server_v.Base.Exec.{ok}
use hotel_server_v.Ranking.{
  RankedHotel, Candidate, EffectivePreference, count_less, count_equal, rating_key, rank_less,
  rank_hotels, rank_all, group_rows, total_of,
}

counts-IsComparison : IsComparison count_equal count_less
counts-IsComparison = record {
  symmetric = λ a b. ground arith;
  equal_trans = λ a b c h k. ground (arith, h, k);
  asymmetric = λ a b h. ground (arith, h);
  lt_trans = λ a b c h k. ground (arith, h, k);
  apart = λ a b h k. ground (arith, h, k);
  equal_lt = λ a b c h. ground (arith, h);
  lt_equal = λ a b c h. ground (arith, h);
  irreflexive = λ a b h. ground (arith, h);
}

module _ (f : Floats) (show_id : ℕ → String) where
  ids-IsStrict : IsStrict (λ (a b : RankedHotel f.F). ltb a.hotel_id b.hotel_id)
  ids-IsStrict = record {
    asym = λ a b h. ground (arith, h);
    trans = λ a b c h k. ground (arith, h, k);
  }

  pub rank_less-IsStrict : IsOrdered f → IsStrict (rank_less f show_id)
  unfolding rank_less
  rank_less-IsStrict o =
      first_or_rest-IsStrict f.equal f.lt (λ h. f.negate h.personalized_rating) _ o
        (first_or_rest-IsStrict f.equal f.lt (λ h. f.negate h.coverage_score) _ o
          (first_or_rest-IsStrict f.equal f.lt (λ h. rating_key f show_id h.source_rating) _ o
            (first_or_rest-IsStrict count_equal count_less (λ h. h.source_review_count) _
              counts-IsComparison ids-IsStrict)))

  -- What a successful call returns.
  pub rank_hotels-ok :
      (rows : List (Candidate f.F)) (ps : List (EffectivePreference f.F))
      (hs : List (RankedHotel f.F))
      → rank_hotels f show_id rows ps ≡ ok hs
      → sort_by
          (rank_less f show_id)
          (rank_all f show_id (group_rows f show_id [] rows) ps (total_of f show_id (whole f 0) ps))
        ≡ hs
  unfolding rank_hotels
  rank_hotels-ok rows ps hs h =
      elim (Bool-cases (f.lt (whole f 0) (total_of f show_id (whole f 0) ps))) [
        | inl e ↦ ground (arith, h, e)
        | inr e ↦ ground (arith, h, e)
      ]

  -- A missing source rating counts as -1, and a missing count of reviews as -1 too, below all.
  abbrev rating_value : Option f.F → f.F
  rating_value none = f.negate (whole f 1)
  rating_value (some r) = r

  abbrev has_fewer : Option ℕ → Option ℕ → Bool
  has_fewer a none = false
  has_fewer none (some b) = true
  has_fewer (some a) (some b) = ltb a b

  -- `a` may stand before `b`: it has the higher rating; with equal ratings the higher coverage; then
  -- the higher source rating; then at least as many reviews; and then the smaller identifier.
  pub record InOrder (a b : RankedHotel f.F) : Type 0 where
    pub by_rating : f.lt a.personalized_rating b.personalized_rating ≡ false
    pub by_coverage :
        f.equal a.personalized_rating b.personalized_rating ≡ true
        → f.lt a.coverage_score b.coverage_score ≡ false
    pub by_source :
        f.equal a.personalized_rating b.personalized_rating ≡ true
        → f.equal a.coverage_score b.coverage_score ≡ true
        → f.lt (rating_value a.source_rating) (rating_value b.source_rating) ≡ false
    pub by_reviews :
        f.equal a.personalized_rating b.personalized_rating ≡ true
        → f.equal a.coverage_score b.coverage_score ≡ true
        → f.equal (rating_value a.source_rating) (rating_value b.source_rating) ≡ true
        → has_fewer a.source_review_count b.source_review_count ≡ false
    pub by_identifier :
        f.equal a.personalized_rating b.personalized_rating ≡ true
        → f.equal a.coverage_score b.coverage_score ≡ true
        → f.equal (rating_value a.source_rating) (rating_value b.source_rating) ≡ true
        → a.source_review_count ≡ b.source_review_count
        → a.hotel_id ≤ b.hotel_id

  -- Every hotel may stand before each one that comes after it.
  abbrev pub AreInOrder : List (RankedHotel f.F) → Type 0
  AreInOrder [] = Unit
  AreInOrder (h ∷ hs) = All (InOrder h) hs × AreInOrder hs

  module _ (o : IsOrdered f) (negates : Negates f) where
    rating_key-value : (r : Option f.F) → rating_key f show_id r ≡ f.negate (rating_value r)
    rating_key-value none = refl
    rating_key-value (some r) = refl

    has_fewer-count : (a b : Option ℕ) → has_fewer a b ≡ count_less b a
    has_fewer-count none none = ground arith
    has_fewer-count none (some b) = ground arith
    has_fewer-count (some a) none = ground arith
    has_fewer-count (some a) (some b) = ground arith

    -- One component of the sort keys.
    component :
        (x y : f.F) (rest : Bool)
        → first_or_rest (f.equal (f.negate y) (f.negate x)) (f.lt (f.negate y) (f.negate x)) rest
          ≡ false
        → (f.lt x y ≡ false) × (f.equal x y ≡ true → rest ≡ false)
    component x y rest h = (
      ground (
        arith,
        h,
        negates.lt_negate y x,
        negates.equal_negate y x,
        o.symmetric x y,
        o.irreflexive x y,
      ),
      λ e. ground (arith, h, e, negates.equal_negate y x, o.symmetric x y),
    )

    rank_less-InOrder : (a b : RankedHotel f.F) → rank_less f show_id b a ≡ false → InOrder a b
    unfolding rank_less
    rank_less-InOrder a b h =
        let fewer =
          first_or_rest (count_equal b.source_review_count a.source_review_count)
            (count_less b.source_review_count a.source_review_count) (ltb b.hotel_id a.hotel_id) in
        let x = rating_value a.source_rating in
        let y = rating_value b.source_rating in
        let keyed =
          first_or_rest (f.equal (f.negate y) (f.negate x)) (f.lt (f.negate y) (f.negate x))
            fewer in
        let rest =
          first_or_rest (f.equal (f.negate b.coverage_score) (f.negate a.coverage_score))
            (f.lt (f.negate b.coverage_score) (f.negate a.coverage_score)) keyed in
        let h' : first_or_rest
              (f.equal (f.negate b.personalized_rating) (f.negate a.personalized_rating))
              (f.lt (f.negate b.personalized_rating) (f.negate a.personalized_rating)) rest
            ≡ false =
          rw (← rating_key-value a.source_rating, ← rating_key-value b.source_rating) h in
        let one = component a.personalized_rating b.personalized_rating rest h' in
        let two = λ (e : f.equal a.personalized_rating b.personalized_rating ≡ true).
          component a.coverage_score b.coverage_score keyed (one.1 e) in
        let three =
          λ (e : f.equal a.personalized_rating b.personalized_rating ≡ true)
              (c : f.equal a.coverage_score b.coverage_score ≡ true).
            component x y fewer ((two e).1 c) in
        record {
          by_rating = one.0;
          by_coverage = λ e. (two e).0;
          by_source = λ e c. (three e c).0;
          by_reviews = λ e c s.
              ground (
                arith,
                (three e c).1 s,
                has_fewer-count a.source_review_count b.source_review_count,
              );
          by_identifier = λ e c s r. ground (arith, (three e c).1 s, r);
        }

    IsSorted-AreInOrder :
        (hs : List (RankedHotel f.F)) → IsSorted (rank_less f show_id) hs → AreInOrder hs
    IsSorted-AreInOrder [] k = tt
    IsSorted-AreInOrder (h ∷ hs) k =
        (All-map (λ x. rank_less-InOrder h x) hs k.0, IsSorted-AreInOrder hs k.1)

    -- Where `<` on the floats is a total order that negation reverses, every hotel of the returned list
    -- may stand before each that comes after it: by the higher rating, then the higher coverage, the
    -- higher source rating, the more reviews, and the smaller identifier.
    pub rank_hotels-AreInOrder :
        (rows : List (Candidate f.F)) (ps : List (EffectivePreference f.F))
        (hs : List (RankedHotel f.F))
        → rank_hotels f show_id rows ps ≡ ok hs
        → AreInOrder hs
    rank_hotels-AreInOrder rows ps hs h = IsSorted-AreInOrder hs (
        rw (← rank_hotels-ok rows ps hs h) (
          sort_by-IsSorted (rank_less f show_id) (rank_less-IsStrict o) (
            rank_all f show_id (group_rows f show_id [] rows) ps
              (total_of f show_id (whole f 0) ps))))
