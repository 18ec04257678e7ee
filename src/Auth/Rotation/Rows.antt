-- ===== src/Auth/Rotation/Rows.antt =====
-- The token table: primary keys, live tokens, and how the updates of Auth/Store.antt change them.
use hotel_server_v.Base.{
  ℕ, String, ◌+◌, ◌≡◌, refl, ◌≢◌, Bool, false, not, ◌&&◌, some, List, [], ◌∷◌, ◌++◌, arith, ◌==◌,
  nat_eq, string_eq, string_eq_iff, ◌||◌, inl, inr, ◌∙◌, Bool-cases, eqb_iff, if◌then◌else◌,
  count_if, is_some, any,
}
use hotel_server_v.Auth.Store.{RefreshToken, get_by_hash, put_token, revoke_one, revoke_family}

abbrev pub has_id : ℕ → List RefreshToken → Bool
has_id k ts = any (λ t. t.id == k) ts

-- No two rows have one primary key.
abbrev pub IsKeyed : List RefreshToken → Type 0
IsKeyed [] = Unit
IsKeyed (t ∷ ts) = (has_id t.id ts ≡ false) × IsKeyed ts

abbrev pub live : ℕ → RefreshToken → Bool
live f t = t.family_id == f && not (is_some t.revoked_at)

abbrev pub live_count : ℕ → List RefreshToken → ℕ
live_count f ts = count_if (live f) ts

abbrev pub one_if : Bool → ℕ
one_if b = if b then 1 else 0

found-ne :
    (h : String) (k : ℕ) (t : RefreshToken) (ts : List RefreshToken)
    → has_id k ts ≡ false
    → get_by_hash h ts ≡ some t
    → t.id ≢ k
unfolding get_by_hash
found-ne h k t [] a e = cc
found-ne h k t (x ∷ ts) a e = ground (arith, found-ne h k t ts)

-- The row that a query by hash finds has that hash.
pub get_by_hash-token_hash :
    (h : String) (t : RefreshToken) (ts : List RefreshToken)
    → get_by_hash h ts ≡ some t
    → t.token_hash ≡ h
unfolding get_by_hash
get_by_hash-token_hash h t [] e = cc
get_by_hash-token_hash h t (x ∷ ts) e =
    ground (arith, string_eq_iff x.token_hash h, get_by_hash-token_hash h t ts)

module _ (h : String) (old new : RefreshToken) (same_id : new.id ≡ old.id) where
  -- Writing the found row back exchanges its part of the count for the new one.
  pub live_count-put_token :
      (f : ℕ) (ts : List RefreshToken)
      → IsKeyed ts
      → get_by_hash h ts ≡ some old
      → live_count f (put_token new ts) + one_if (live f old)
        ≡ live_count f ts + one_if (live f new)
  unfolding get_by_hash put_token
  live_count-put_token f [] k e = cc
  live_count-put_token f (x ∷ ts) k e =
      ground (arith, live_count-put_token f ts k.1, found-ne h x.id old ts k.0)

  pub get_by_hash-put_token :
      (ts : List RefreshToken)
      → IsKeyed ts
      → new.token_hash ≡ h
      → get_by_hash h ts ≡ some old
      → get_by_hash h (put_token new ts) ≡ some new
  unfolding get_by_hash put_token
  get_by_hash-put_token [] k n e = cc
  get_by_hash-put_token (x ∷ ts) k n e = ground (
    arith,
    get_by_hash-put_token ts k.1 n,
    found-ne h x.id old ts k.0,
    string_eq_iff new.token_hash h,
  )

has_id-put_token :
    (k : ℕ) (new : RefreshToken) (ts : List RefreshToken)
    → has_id k (put_token new ts) ≡ has_id k ts
unfolding put_token
has_id-put_token k new [] = refl
has_id-put_token k new (x ∷ ts) = ground (arith, has_id-put_token k new ts)

pub IsKeyed-put_token :
    (new : RefreshToken) (ts : List RefreshToken) → IsKeyed ts → IsKeyed (put_token new ts)
unfolding put_token
IsKeyed-put_token new [] k = tt
IsKeyed-put_token new (x ∷ ts) k = elim (Bool-cases (x.id == new.id)) [
  | inl e ↦ rw e (rw (← (eqb_iff x.id new.id).0 e) k)
  | inr e ↦ rw e (has_id-put_token x.id new ts ∙ k.0, IsKeyed-put_token new ts k.1)
]

has_id-append_one :
    (k : ℕ) (new : RefreshToken) (ts : List RefreshToken)
    → has_id k (ts ++ new ∷ []) ≡ (has_id k ts || new.id == k)
has_id-append_one k new [] = ground arith
has_id-append_one k new (x ∷ ts) = ground (arith, has_id-append_one k new ts)

pub IsKeyed-append_one :
    (new : RefreshToken) (ts : List RefreshToken)
    → has_id new.id ts ≡ false
    → IsKeyed ts
    → IsKeyed (ts ++ new ∷ [])
IsKeyed-append_one new [] a k = (refl, tt)
IsKeyed-append_one new (x ∷ ts) a k =
    (ground (arith, has_id-append_one x.id new ts), IsKeyed-append_one new ts (ground arith) k.1)

pub live_count-append_one :
    (f : ℕ) (new : RefreshToken) (ts : List RefreshToken)
    → live_count f (ts ++ new ∷ []) ≡ live_count f ts + one_if (live f new)
live_count-append_one f new [] = ground arith
live_count-append_one f new (x ∷ ts) = ground (arith, live_count-append_one f new ts)

pub get_by_hash-append_one :
    (h : String) (t new : RefreshToken) (ts : List RefreshToken)
    → get_by_hash h ts ≡ some t
    → get_by_hash h (ts ++ new ∷ []) ≡ some t
unfolding get_by_hash
get_by_hash-append_one h t new [] e = cc
get_by_hash-append_one h t new (x ∷ ts) e = ground (arith, get_by_hash-append_one h t new ts)

-- Revoking a family leaves none of its tokens live, and the other families as they were.
pub live_count-revoke_family :
    (f g now : ℕ) (ts : List RefreshToken)
    → live_count g (revoke_family f now ts) ≡ (if g == f then 0 else live_count g ts)
unfolding revoke_family
live_count-revoke_family f g now [] = ground arith
live_count-revoke_family f g now (x ∷ ts) = ground (arith, live_count-revoke_family f g now ts)

has_id-revoke_family :
    (k f now : ℕ) (ts : List RefreshToken) → has_id k (revoke_family f now ts) ≡ has_id k ts
unfolding revoke_family
has_id-revoke_family k f now [] = refl
has_id-revoke_family k f now (x ∷ ts) = ground (arith, has_id-revoke_family k f now ts)

revoke_one-id : (f now : ℕ) (t : RefreshToken) → (revoke_one f now t).id ≡ t.id
revoke_one-id f now t = ground arith

pub IsKeyed-revoke_family :
    (f now : ℕ) (ts : List RefreshToken) → IsKeyed ts → IsKeyed (revoke_family f now ts)
unfolding revoke_family
IsKeyed-revoke_family f now [] k = tt
IsKeyed-revoke_family f now (x ∷ ts) k = (
  rw (revoke_one-id f now x) (has_id-revoke_family x.id f now ts ∙ k.0),
  IsKeyed-revoke_family f now ts k.1,
)
