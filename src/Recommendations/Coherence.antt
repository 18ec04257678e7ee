-- ===== src/Recommendations/Coherence.antt =====
-- About the cache of recommendation runs against the stored runs.
use hotel_server_v.Base.{
  ℕ, suc, String, Bool, true, false, Option, none, some, List, [], ◌∷◌, ◌++◌, any, take, ◌≡◌, refl,
  sym, subst, inl, inr, Option-cases, arith, All, find-All, find-true, keep-append_none, eqb,
  nat_eq, ◌==◌, ◌&&◌,
}
use hotel_server_v.Base.Exec.{Exec, Result, ok, err, request, Result-cases}
use hotel_server_v.Base.Floats.{Floats}
use hotel_server_v.Base.Rational.{Rational}
use hotel_server_v.Ranking.{RankedHotel}
use hotel_server_v.Recommendations.Tables.{RecommendationRun, HotelRecommendation, Tables}
use hotel_server_v.Recommendations.Runs.{IsFresh, save, get_owned, result_rows}
use hotel_server_v.Recommendations.Names.{IsKeyed}
use hotel_server_v.Recommendations.Generated.{generate-Generated, generate-err}
use hotel_server_v.Recommendations.RoundTrip.{get-generate}
use hotel_server_v.Recommendations.Service.{
  RecommendationRequest, RecommendationRunRead, generate, get, models_from,
}
use hotel_server_v.Recommendations.Server.{
  Server, Entry, cached, read_cache, store_run, respond, answer, Response, generate_request,
  get_request, IsStep, generated, got, IsReachable, empty, step,
}

module _ (f : Floats) (show_id : ℕ → String) (to_float : Rational → f.F) where
  open f use {F}

  get_owned-append :
      (run user : ℕ) (r new : RecommendationRun F) (runs : List (RecommendationRun F))
      → get_owned run user runs ≡ some r
      → get_owned run user (runs ++ new ∷ []) ≡ some r
  unfolding get_owned
  get_owned-append run user r new [] h = ground (arith, h)
  get_owned-append run user r new (x ∷ xs) h = ground (arith, h, get_owned-append run user r new xs)

  -- A stored run is no new one.
  get_owned-apart :
      (run user new_id : ℕ) (r : RecommendationRun F) (runs : List (RecommendationRun F))
      → any (λ x. x.id == new_id) runs ≡ false
      → get_owned run user runs ≡ some r
      → eqb new_id run ≡ false
  unfolding get_owned
  get_owned-apart run user new_id r [] h q = ground (arith, q)
  get_owned-apart run user new_id r (x ∷ xs) h q =
      ground (arith, h, q, get_owned-apart run user new_id r xs)

  any-models :
      (run new_id n : ℕ) (hs : List (RankedHotel F))
      → eqb new_id run ≡ false
      → any (λ x. x.recommendation_run_id == run) (models_from f show_id to_float new_id n hs)
        ≡ false
  unfolding models_from
  any-models run new_id n [] h = refl
  any-models run new_id n (x ∷ xs) h = ground (arith, h, any-models run new_id (suc n) xs h)

  result_rows-other :
      (run new_id n : ℕ) (r : RecommendationRun F) (hs : List (RankedHotel F)) (d : Tables F)
      → eqb new_id run ≡ false
      → result_rows run (save r (models_from f show_id to_float new_id n hs) d) ≡ result_rows run d
  unfolding result_rows save
  result_rows-other run new_id n r hs d h =
      let new = models_from f show_id to_float new_id n hs in
      rw
        (keep-append_none (λ x. x.recommendation_run_id == run) d.recommendations new
          (any-models run new_id n hs h))
        refl

  -- `get` changes nothing.
  get-tables : (user run : ℕ) (d : Tables F) → (request (get f show_id to_float user run) d).1 ≡ d
  unfolding get
  get-tables user run d = elim (Option-cases (get_owned run user d.runs)) [
    | inl e ↦ ground (arith, e)
    | inr (r, e) ↦ ground (arith, e)
  ]

  get-found :
      (user run : ℕ) (d : Tables F) (v : RecommendationRunRead F)
      → (request (get f show_id to_float user run) d).0 ≡ ok v
      → (r : RecommendationRun F) × (get_owned run user d.runs ≡ some r)
        × (v.recommendation_run_id ≡ run)
  unfolding get get_owned
  get-found user run d v q = elim (Option-cases (get_owned run user d.runs)) [
    | inl e ↦ ground (arith, e, q)
    | inr (r, e) ↦
        (r, e, ground (arith, e, q, find-true (λ x. x.id == run && x.user_id == user) d.runs r e))
  ]

  abbrev IsCurrent : Tables F → Entry F → Type 0
  IsCurrent d e = (request (get f show_id to_float e.user_id e.run_id) d).0 ≡ ok e.value

  saved_runs :
      (new : RecommendationRun F) (models : List (HotelRecommendation F)) (d : Tables F)
      → (save new models d).runs ≡ d.runs ++ new ∷ []
  unfolding save
  saved_runs new models d = refl

  saved_hotels :
      (new : RecommendationRun F) (models : List (HotelRecommendation F)) (d : Tables F)
      → IsKeyed d.hotels
      → IsKeyed (save new models d).hotels
  unfolding save
  saved_hotels new models d h = h

  get-save :
      (new_id n : ℕ) (new : RecommendationRun F) (hs : List (RankedHotel F)) (d : Tables F)
      → IsFresh new_id d
      → (e : Entry F) → IsCurrent d e
      → IsCurrent (save new (models_from f show_id to_float new_id n hs) d) e
  unfolding get
  get-save new_id n new hs d fresh e c =
      let (r, q, same) = get-found e.user_id e.run_id d e.value c in
      let apart = get_owned-apart e.run_id e.user_id new_id r d.runs fresh.0 q in
      ground (
        arith,
        c,
        q,
        saved_runs new (models_from f show_id to_float new_id n hs) d,
        get_owned-append e.run_id e.user_id r new d.runs q,
        result_rows-other e.run_id new_id n new hs d apart,
      )

  -- Every entry of the cache is what the stored data answer.
  abbrev pub IsCoherent : Server F → Type 0
  IsCoherent s = IsKeyed s.tables.hotels × All (IsCurrent s.tables) s.cache

  All-IsCurrent :
      (d after : Tables F) (es : List (Entry F))
      → ((e : Entry F) → IsCurrent d e → IsCurrent after e)
      → All (IsCurrent d) es
      → All (IsCurrent after) es
  All-IsCurrent d after [] h k = tt
  All-IsCurrent d after (e ∷ es) h k = (h e k.0, All-IsCurrent d after es h k.1)

  store_run-All :
      (writes : Bool) (user : ℕ) (x : Result (RecommendationRunRead F)) (d : Tables F)
      (es : List (Entry F))
      → ((v : RecommendationRunRead F)
          → x ≡ ok v
          → (request (get f show_id to_float user v.recommendation_run_id) d).0 ≡ ok v)
      → All (IsCurrent d) es
      → All (IsCurrent d) (store_run writes user x es)
  store_run-All false user x d es h k = k
  store_run-All true user (err e) d es h k = k
  store_run-All true user (ok v) d es h k = (h v refl, k)

  respond-IsCoherent :
      (writes : Bool) (user : ℕ) (m : Exec (Tables F) (RecommendationRunRead F)) (s : Server F)
      → IsKeyed (request m s.tables).1.hotels
      → ((e : Entry F) → IsCurrent s.tables e → IsCurrent (request m s.tables).1 e)
      → ((v : RecommendationRunRead F)
          → (request m s.tables).0 ≡ ok v
          → (request (get f show_id to_float user v.recommendation_run_id) (request m s.tables).1).0
            ≡ ok v)
      → All (IsCurrent s.tables) s.cache
      → IsCoherent (respond f show_id to_float writes user m s).1
  respond-IsCoherent writes user m s keyed old new c =
      let after = (request m s.tables).1 in
      (
        keyed,
        store_run-All writes user (request m s.tables).0 after s.cache new
            (All-IsCurrent s.tables after s.cache old c),
      )

  answer-IsCoherent :
      (o : Option (Entry F)) (response : Response f show_id to_float) (s : Server F)
      → IsCoherent s
      → IsCoherent response.1
      → IsCoherent (answer f show_id to_float o response s).1
  answer-IsCoherent none response s c h = h
  answer-IsCoherent (some e) response s c h = c

  get_request-IsCoherent :
      (reads writes : Bool) (user run : ℕ) (s : Server F)
      → IsCoherent s
      → IsCoherent (get_request f show_id to_float reads writes user run s).1
  unfolding get_request
  get_request-IsCoherent reads writes user run s c =
      let m = get f show_id to_float user run in
      let same = get-tables user run s.tables in
      answer-IsCoherent (read_cache reads user run s) (respond f show_id to_float writes user m s) s
        c
        (respond-IsCoherent writes user m s (subst (λ d. IsKeyed d.hotels) (sym same) c.0)
          (λ e h. subst (λ d. IsCurrent d e) (sym same) h)
          (λ v q.
            subst (λ d. (request (get f show_id to_float user v.recommendation_run_id) d).0 ≡ ok v)
              (sym same)
              (subst (λ n. (request (get f show_id to_float user n) s.tables).0 ≡ ok v)
                (sym (get-found user run s.tables v q).2) q))
          c.1)

  generate_request-IsCoherent :
      (writes : Bool) (now new_id user : ℕ) (payload : RecommendationRequest F) (s : Server F)
      → IsFresh new_id s.tables
      → IsCoherent s
      → IsCoherent (generate_request f show_id to_float writes now new_id user payload s).1
  unfolding generate_request
  generate_request-IsCoherent writes now new_id user payload s fresh c =
      let m = generate f show_id to_float now new_id user payload in
      let after = (request m s.tables).1 in
      elim (Result-cases (request m s.tables).0) [
        | inl (v, e) ↦
            let g =
              generate-Generated f show_id to_float now new_id user payload s.tables after v
                (ground (arith, e)) in
            let hs = take payload.filters.limit g.ranked in
            let keyed =
              saved_hotels g.run (models_from f show_id to_float new_id 1 hs) s.tables c.0 in
            let answers =
              get-generate f show_id to_float now new_id user payload s.tables after v c.0 fresh
                (ground (arith, e)) in
            respond-IsCoherent writes user m s (subst (λ d. IsKeyed d.hotels) (sym g.stored) keyed)
              (λ y h.
                subst (λ d. IsCurrent d y) (sym g.stored)
                  (get-save new_id 1 g.run hs s.tables fresh y h))
              (λ w q. ground (arith, e, q, g.returned, answers)) c.1
        | inr (x, e) ↦
            let same =
              generate-err f show_id to_float now new_id user payload s.tables after x
                (ground (arith, e)) in
            respond-IsCoherent writes user m s (subst (λ d. IsKeyed d.hotels) (sym same) c.0)
              (λ y h. subst (λ d. IsCurrent d y) (sym same) h) (λ v q. ground (arith, e, q)) c.1
      ]

  step-IsCoherent : {s t : Server F} → IsStep f show_id to_float s t → IsCoherent s → IsCoherent t
  step-IsCoherent (generated writes now new_id user payload s fresh) c =
      generate_request-IsCoherent writes now new_id user payload s fresh c
  step-IsCoherent (got reads writes user run s) c = get_request-IsCoherent reads writes user run s c

  pub reachable-IsCoherent :
      {start : Tables F} {s : Server F}
      → IsReachable f show_id to_float start s
      → IsKeyed start.hotels
      → IsCoherent s
  reachable-IsCoherent empty k = (k, tt)
  reachable-IsCoherent (step r x) k = step-IsCoherent x (reachable-IsCoherent r k)

  cached-current :
      (user run : ℕ) (s : Server F) (e : Entry F)
      → IsCoherent s
      → cached user run s.cache ≡ some e
      → (request (get f show_id to_float user run) s.tables).0 ≡ ok e.value
  unfolding cached
  cached-current user run s e c q =
      let test = λ (x : Entry F). x.user_id == user && x.run_id == run in
      ground (arith, find-All (IsCurrent s.tables) test s.cache e c.1 q, find-true test s.cache e q)

  -- In every state that requests of `generate` and `get` alone reach from data with unique hotel identifiers and an empty cache, a read through the cache answers what the stored data answer, whichever cache reads and writes succeed.
  pub get_request-transparent :
      (start : Tables F) (s : Server F) (reads writes : Bool) (user run : ℕ)
      → IsKeyed start.hotels
      → IsReachable f show_id to_float start s
      → (get_request f show_id to_float reads writes user run s).0
        ≡ (request (get f show_id to_float user run) s.tables).0
  unfolding get_request
  get_request-transparent start s reads writes user run keyed r =
      let c = reachable-IsCoherent r keyed in
      elim (Option-cases (cached user run s.cache)) [
        | inl e ↦ ground (arith, e)
        | inr (x, e) ↦ ground (arith, e, cached-current user run s x c e)
      ]
