-- ===== src/Onboarding/Store/Sessions.antt =====
-- Reading and writing session rows of Onboarding/Store.antt by primary key.
use hotel_server_v.Base.{
  ℕ, ◌≡◌, true, ◌&&◌, some, List, [], ◌∷◌, arith, ◌==◌, nat_eq, eqb_iff, if◌then◌else◌, find,
  is_some,
}
use hotel_server_v.Onboarding.Types.{Session}
use hotel_server_v.Onboarding.Store.{get_session, put_session}

module _ {Profile : Type 0} where
  -- The row that is found has the key.
  pub get_session-id :
      (sid : ℕ) (f : Session Profile) (ss : List (Session Profile))
      → get_session sid ss ≡ some f
      → f.id ≡ sid
  unfolding get_session
  get_session-id sid f [] h = ground arith
  get_session-id sid f (s ∷ ss) h = ground (arith, get_session-id sid f ss, eqb_iff s.id sid)

  -- Its owner finds it under the key too.
  pub find-owned :
      (sid : ℕ) (f : Session Profile) (ss : List (Session Profile))
      → get_session sid ss ≡ some f
      → find (λ s. s.id == sid && s.user_id == f.user_id) ss ≡ some f
  unfolding get_session
  find-owned sid f [] h = ground arith
  find-owned sid f (s ∷ ss) h = ground (arith, find-owned sid f ss, eqb_iff s.user_id f.user_id)

  -- A row is written under its key and under no other.
  pub get_session-put_session :
      (sid : ℕ) (new : Session Profile) (ss : List (Session Profile))
      → get_session sid (put_session new ss)
        ≡ (if new.id == sid && is_some (get_session sid ss) then some new else get_session sid ss)
  unfolding get_session put_session
  get_session-put_session sid new [] = ground arith
  get_session-put_session sid new (s ∷ ss) = ground (
    arith,
    get_session-put_session sid new ss,
    eqb_iff s.id new.id,
    eqb_iff new.id sid,
    eqb_iff s.id sid,
  )

  -- What the owner finds has the key and the owner, and the key is in the table.
  pub owned-get :
      (sid user : ℕ) (f : Session Profile) (ss : List (Session Profile))
      → find (λ s. s.id == sid && s.user_id == user) ss ≡ some f
      → (f.id ≡ sid) × (f.user_id ≡ user) × (is_some (get_session sid ss) ≡ true)
  unfolding get_session
  owned-get sid user f [] h = ground arith
  owned-get sid user f (s ∷ ss) h =
      ground (arith, owned-get sid user f ss, eqb_iff s.id sid, eqb_iff s.user_id user)
