-- ===== src/Auth/Refusals.antt =====
-- About the failures of the requests of services/auth.py.
use hotel_server_v.Base.{
  ℕ, none, some, Bool-cases, ◌==◌, String, ◌≡◌, ◌⊎◌, inl, inr, Option, arith, Option-cases,
  string_eq,
}
use hotel_server_v.Base.Exec.{err, request}
use hotel_server_v.Base.Text.{Unicode}
use hotel_server_v.Errors.{Error, status_code, integrity, unexpected, refresh_token_reuse}
use hotel_server_v.Auth.Store.{Accounts, get_by_hash, get_by_id, get_by_email}
use hotel_server_v.Auth.Security.{Crypto, Claims, JwtConfig, Draw, hash_token_identifier}
use hotel_server_v.Auth.Service.{RegisterRequest, register, login, refresh}

-- A registration that fails answers 409, whatever clashed, and stores nothing.
pub register-refusal :
    (c : Crypto) (config : JwtConfig) (u : Unicode) (draw : Draw) (r : RegisterRequest)
    (agent ip : Option String) (d : Accounts) (e : Error)
    → (request (register c config u draw r agent ip) d).0 ≡ err e
    → (status_code e ≡ 409) × ((request (register c config u draw r agent ip) d).1 ≡ d)
unfolding register
register-refusal c config u draw r agent ip d e h = ground (arith, h)

-- A login that fails answers 401, or an integrity error of the drawn token, and stores nothing.
pub login-refusal :
    (c : Crypto) (config : JwtConfig) (u : Unicode) (draw : Draw) (email password : String)
    (agent ip : Option String) (d : Accounts) (e : Error)
    → (request (login c config u draw email password agent ip) d).0 ≡ err e
    → ((status_code e ≡ 401) ⊎ (e ≡ integrity))
      × ((request (login c config u draw email password agent ip) d).1 ≡ d)
unfolding login
login-refusal c config u draw email password agent ip d e h =
    elim (Option-cases (get_by_email (u.lower (u.lower email)) d.users)) [
      | inl n ↦ ground (arith, h, n)
      | inr (user, n) ↦ ground (arith, h, n)
    ]

-- The causes for which a refresh fails: a token or row that answers 401, an integrity error of the
-- drawn token, or a token that decodes and has no family that is a UUID, which nothing handles.
abbrev pub IsRefusal : Crypto → Draw → String → Error → Type 0
IsRefusal c draw token e =
    (status_code e ≡ 401)
    ⊎ (e ≡ integrity)
    ⊎ ((e ≡ unexpected) × (p : Claims) × ((c.decode draw.now token ≡ some p) × (p.family ≡ none)))

-- The case of a token that decodes to a family.
family-IsRefusal :
    (c : Crypto) (config : JwtConfig) (u : Unicode) (draw : Draw) (token : String)
    (agent ip : Option String) (d : Accounts) (e : Error) (p : Claims) (f : ℕ)
    → c.decode draw.now token ≡ some p
    → p.family ≡ some f
    → (request (refresh c config u draw token agent ip) d).0 ≡ err e
    → IsRefusal c draw token e
      × ((e ≡ refresh_token_reuse) ⊎ ((request (refresh c config u draw token agent ip) d).1 ≡ d))
unfolding refresh
family-IsRefusal c config u draw token agent ip d e p f n m h =
    let answers : ((status_code e ≡ 401) ⊎ (e ≡ integrity))
        × ((e ≡ refresh_token_reuse)
            ⊎ ((request (refresh c config u draw token agent ip) d).1 ≡ d)) =
      elim (Option-cases (get_by_hash (hash_token_identifier c p.jti) d.tokens)) [
        | inl g ↦ ground (arith, h, n, m, g)
        | inr (stored, g) ↦ elim (Option-cases (get_by_id stored.user_id d.users)) [
          | inl k ↦ ground (arith, h, n, m, g, k)
          | inr (user, k) ↦ ground (arith, h, n, m, g, k)
        ]
      ] in
    (elim answers.0 [ inl a ↦ inl a | inr b ↦ inr (inl b) ], answers.1)

-- A refresh that fails answers 401, or an integrity error of the drawn token, or, for a token that
-- decodes without a family that is a UUID, an unexpected error. It stores nothing unless the error is
-- the reuse of a token.
pub refresh-IsRefusal :
    (c : Crypto) (config : JwtConfig) (u : Unicode) (draw : Draw) (token : String)
    (agent ip : Option String) (d : Accounts) (e : Error)
    → (request (refresh c config u draw token agent ip) d).0 ≡ err e
    → IsRefusal c draw token e
      × ((e ≡ refresh_token_reuse) ⊎ ((request (refresh c config u draw token agent ip) d).1 ≡ d))
unfolding refresh
refresh-IsRefusal c config u draw token agent ip d e h =
    elim (Option-cases (c.decode draw.now token)) [
      | inl n ↦ (inl (ground (arith, h, n)), ground (arith, h, n))
      | inr (p, n) ↦ elim (Option-cases p.family) [
        | inl m ↦ elim (Bool-cases (p.type == "refresh")) [
          | inl t ↦ (inr (inr (ground (arith, h, n, m, t), p, (n, m))), ground (arith, h, n, m, t))
          | inr t ↦ (inl (ground (arith, h, n, t)), ground (arith, h, n, t))
        ]
        | inr (f, m) ↦ family-IsRefusal c config u draw token agent ip d e p f n m h
      ]
    ]
