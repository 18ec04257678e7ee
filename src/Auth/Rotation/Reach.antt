-- ===== src/Auth/Rotation/Reach.antt =====
-- The account stores that sequences of the four calls of services/auth.py can reach.
use hotel_server_v.Base.{
  ℕ, String, ◌≡◌, refl, not, ◌||◌, ◌⊎◌, inl, inr, Option, some, List, [], ◌∷◌, ◌++◌, arith,
  Bool-cases, Option-cases, any, ◌==◌, string_eq,
}
use hotel_server_v.Base.Exec.{request, is_ok}
use hotel_server_v.Base.Text.{Unicode}
use hotel_server_v.Auth.Store.{
  User, is_active, RefreshToken, Accounts, get_by_hash, get_by_email, put_token,
}
use hotel_server_v.Auth.Security.{Crypto, JwtConfig, Draw, hash_token_identifier, verify_password}
use hotel_server_v.Auth.Service.{RegisterRequest, refresh_row, refresh, logout, login, register}
use hotel_server_v.Auth.Rotation.Rows.{
  live_count-put_token, IsKeyed-put_token, IsKeyed-append_one, live_count-append_one,
}
use hotel_server_v.Auth.Rotation.OneLive.{IsValid, IsFresh, refresh-IsValid}

module _ (c : Crypto) (config : JwtConfig) (u : Unicode) where
  issued-IsValid :
      (draw : Draw) (user_id : ℕ) (agent ip : Option String) (users : List User) (d : Accounts)
      → IsFresh draw d
      → IsValid d
      → IsValid (record {
        users = users;
        tokens = d.tokens ++ refresh_row c config u draw user_id draw.family_id agent ip ∷ [];
      })
  issued-IsValid draw user_id agent ip users d fresh v =
      let new : RefreshToken = refresh_row c config u draw user_id draw.family_id agent ip in
      record {
        keyed = IsKeyed-append_one new d.tokens fresh.new_id v.keyed;
        one_live = λ f.
            ground (arith, v.one_live f, fresh.new_family, live_count-append_one f new d.tokens);
      }

  -- What a call that issues a first token may do to the stored data.
  Issued : Draw → Option String → Option String → Accounts → Accounts → Type 0
  Issued draw agent ip d d' =
      (d' ≡ d)
      ⊎ ((user_id : ℕ) × (users : List User) × (d' ≡ record {
        users = users;
        tokens = d.tokens ++ refresh_row c config u draw user_id draw.family_id agent ip ∷ [];
      }))

  login-cases :
      (draw : Draw) (email password : String) (agent ip : Option String) (d : Accounts)
      → Issued draw agent ip d (request (login c config u draw email password agent ip) d).1
  unfolding login Issued
  login-cases draw email password agent ip d =
      elim (Option-cases (get_by_email (u.lower (u.lower email)) d.users)) [
        | inl e ↦ inl (ground arith)
        | inr (user, e) ↦
            elim (Bool-cases (
              not (is_active user.status)
              || not (verify_password c password user.password_hash)
              || any (λ t. t.token_hash == hash_token_identifier c draw.refresh_jti) d.tokens)) [
                | inl p ↦ inl (ground arith)
                | inr p ↦ inr (
                  user.id,
                  (request (login c config u draw email password agent ip) d).1.users,
                  ground arith,
                )
              ]
      ]

  register-cases :
      (draw : Draw) (r : RegisterRequest) (agent ip : Option String) (d : Accounts)
      → Issued draw agent ip d (request (register c config u draw r agent ip) d).1
  unfolding register Issued
  register-cases draw r agent ip d =
      elim (Bool-cases (is_ok (request (register c config u draw r agent ip) d).0)) [
        | inl p ↦
            inr (
              draw.user_id,
              (request (register c config u draw r agent ip) d).1.users,
              ground arith,
            )
        | inr p ↦ inl (ground arith)
      ]

  Issued-IsValid :
      (draw : Draw) (agent ip : Option String) (d d' : Accounts)
      → Issued draw agent ip d d'
      → IsFresh draw d
      → IsValid d
      → IsValid d'
  unfolding Issued
  Issued-IsValid draw agent ip d d' (inl e) fresh v = rw e v
  Issued-IsValid draw agent ip d d' (inr (user_id, users, e)) fresh v =
      rw e (issued-IsValid draw user_id agent ip users d fresh v)

  revoked-IsValid :
      (h : String) (t : RefreshToken) (now : ℕ) (d : Accounts)
      → get_by_hash h d.tokens ≡ some t
      → IsValid d
      → IsValid (record d { tokens = put_token (record t { revoked_at = some now }) d.tokens })
  revoked-IsValid h t now d e v =
      let gone : RefreshToken = record t { revoked_at = some now } in
      record {
        keyed = IsKeyed-put_token gone d.tokens v.keyed;
        one_live = λ f.
            ground (arith, v.one_live f, live_count-put_token h t gone refl f d.tokens v.keyed e);
      }

  -- A logout keeps the invariant.
  pub logout-IsValid :
      (draw : Draw) (token : String) (d : Accounts)
      → IsValid d
      → IsValid (request (logout c config u draw token) d).1
  unfolding logout
  logout-IsValid draw token d v = elim (Option-cases (c.decode draw.now token)) [
    | inl e ↦ rw e v
    | inr (p, e) ↦ elim (Option-cases (get_by_hash (hash_token_identifier c p.jti) d.tokens)) [
      | inl g ↦ ground (arith)
      | inr (t, g) ↦
          ground (arith, revoked-IsValid (hash_token_identifier c p.jti) t draw.now d g v)
    ]
  ]

  -- One call of a service method, with what it draws.
  pub data Step (d : Accounts) : Accounts → Type 0 where
    registered :
        (draw : Draw) (r : RegisterRequest) (agent ip : Option String)
        → IsFresh draw d
        → Step d (request (register c config u draw r agent ip) d).1
    logged_in :
        (draw : Draw) (email password : String) (agent ip : Option String)
        → IsFresh draw d
        → Step d (request (login c config u draw email password agent ip) d).1
    refreshed :
        (draw : Draw) (token : String) (agent ip : Option String)
        → IsFresh draw d
        → Step d (request (refresh c config u draw token agent ip) d).1
    logged_out :
        (draw : Draw) (token : String) → Step d (request (logout c config u draw token) d).1

  pub data Reach (d : Accounts) : Accounts → Type 0 where
    here : Reach d d
    next : {d₁ d₂ : Accounts} → Reach d d₁ → Step d₁ d₂ → Reach d d₂

  Step-IsValid : {d d' : Accounts} → Step d d' → IsValid d → IsValid d'
  Step-IsValid {d} (registered draw r agent ip fresh) v =
      Issued-IsValid draw agent ip d _ (register-cases draw r agent ip d) fresh v
  Step-IsValid {d} (logged_in draw email password agent ip fresh) v =
      Issued-IsValid draw agent ip d _ (login-cases draw email password agent ip d) fresh v
  Step-IsValid {d} (refreshed draw token agent ip fresh) v =
      refresh-IsValid c config u draw agent ip token d fresh v
  Step-IsValid {d} (logged_out draw token) v = logout-IsValid draw token d v

  -- From a store in which every family has at most one live token, any sequence of registrations,
  -- logins, refreshes and logouts, whatever tokens are presented, ends in such a store.
  pub Reach-IsValid : {d d' : Accounts} → Reach d d' → IsValid d → IsValid d'
  Reach-IsValid here v = v
  Reach-IsValid (next r s) v = Step-IsValid s (Reach-IsValid r v)
