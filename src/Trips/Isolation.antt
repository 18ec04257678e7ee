-- ===== src/Trips/Isolation.antt =====
-- About what one user's calls of services/trips.py do to the trips, theirs and those of others.
use hotel_server_v.Base.{
  ℕ, Bool, ◌≡◌, ◌≢◌, true, false, none, some, List, [], ◌∷◌, ◌++◌, arith, ◌==◌, nat_eq, eqb_iff,
  any, inl, inr, Option-cases,
}
use hotel_server_v.Base.Exec.{request}
use hotel_server_v.Trips.{Trip, World, TripWrite, get_owned, put_trip, create, update, delete}

abbrev pub has_id : ℕ → List Trip → Bool
has_id k ts = any (λ t. t.id == k) ts

-- No two rows have one primary key.
abbrev pub IsKeyed : List Trip → Type 0
IsKeyed [] = Unit
IsKeyed (t ∷ ts) = (has_id t.id ts ≡ false) × IsKeyed ts

get_owned-found :
    (i u : ℕ) (f : Trip) (ts : List Trip)
    → get_owned i u ts ≡ some f
    → (f.id ≡ i) × (f.user_id ≡ u) × (f.deleted_at ≡ none) × (has_id i ts ≡ true)
unfolding get_owned
get_owned-found i u f [] h = ground (arith, h)
get_owned-found i u f (x ∷ ts) h =
    ground (arith, h, get_owned-found i u f ts, eqb_iff x.id i, eqb_iff x.user_id u)

-- Another user finds the same trips after a found trip is written back.
get_owned-put_trip :
    (i u j v : ℕ) (f new : Trip) (ts : List Trip)
    → IsKeyed ts
    → get_owned i u ts ≡ some f
    → new.id ≡ i
    → new.user_id ≡ u
    → u ≢ v
    → get_owned j v (put_trip new ts) ≡ get_owned j v ts
unfolding get_owned put_trip
get_owned-put_trip i u j v f new [] k h a b n = ground arith
get_owned-put_trip i u j v f new (x ∷ ts) k h a b n = ground (
  arith,
  k.0,
  h,
  a,
  b,
  n,
  get_owned-found i u f ts,
  get_owned-put_trip i u j v f new ts k.1,
  eqb_iff x.id i,
  eqb_iff x.id new.id,
  eqb_iff x.user_id u,
  eqb_iff x.user_id v,
  eqb_iff new.user_id v,
)

-- One user's call that may change trips.
pub data Call : Type 0 where
  creates : ℕ → ℕ → TripWrite → Call
  updates : ℕ → TripWrite → Call
  deletes : ℕ → ℕ → Call

-- What is stored after it.
abbrev pub after : ℕ → Call → World → World
after user (creates now new_id w) d = (request (create now new_id user w) d).1
after user (updates trip w) d = (request (update user trip w) d).1
after user (deletes now trip) d = (request (delete now user trip) d).1

get_owned-append_one :
    (j v : ℕ) (new : Trip) (ts : List Trip)
    → new.user_id ≢ v
    → get_owned j v (ts ++ new ∷ []) ≡ get_owned j v ts
unfolding get_owned
get_owned-append_one j v new [] n = ground (arith, n, eqb_iff new.user_id v)
get_owned-append_one j v new (x ∷ ts) n = ground (arith, get_owned-append_one j v new ts n)

-- Where no two trips have one identifier, no call of one user, however it ends, changes what another
-- user finds under any identifier.
pub after-isolated :
    (u v j : ℕ) (c : Call) (d : World)
    → IsKeyed d.trips
    → u ≢ v
    → get_owned j v (after u c d).trips ≡ get_owned j v d.trips
unfolding create update delete
after-isolated u v j (creates now new_id w) d k n =
    let new : Trip = record {
      id = new_id;
      user_id = u;
      created_at = now;
      content = w;
      deleted_at = none;
    } in
    ground (arith, get_owned-append_one j v new d.trips n)
after-isolated u v j (updates trip w) d k n = elim (Option-cases (get_owned trip u d.trips)) [
  | inl e ↦ ground (arith, e)
  | inr (f, e) ↦
      let g = get_owned-found trip u f d.trips e in
      ground
        (arith, e, get_owned-put_trip trip u j v f (record f { content = w }) d.trips k e g.0 g.1 n)
]
after-isolated u v j (deletes now trip) d k n = elim (Option-cases (get_owned trip u d.trips)) [
  | inl e ↦ ground (arith, e)
  | inr (f, e) ↦
      let g = get_owned-found trip u f d.trips e in
      ground (
        arith,
        e,
        get_owned-put_trip trip u j v f (record f { deleted_at = some now }) d.trips k e g.0 g.1 n,
      )
]
