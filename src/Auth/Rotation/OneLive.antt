-- ===== src/Auth/Rotation/OneLive.antt =====
-- The invariant of the token table, and what one refresh of services/auth.py does to it.
use hotel_server_v.Base.{
  ℕ, String, ◌≤◌, ◌≡◌, refl, false, ◌⊎◌, inl, inr, Option, none, some, [], ◌∷◌, ◌++◌, arith,
  Bool-cases, Option-cases, any, ◌==◌, string_eq, leb, not, is_some, ◌&&◌, ◌||◌,
}
use hotel_server_v.Base.Exec.{request}
use hotel_server_v.Base.Text.{Unicode}
use hotel_server_v.Auth.Store.{
  is_active, RefreshToken, Accounts, get_by_hash, get_by_id, put_token, revoke_family,
}
use hotel_server_v.Auth.Security.{Crypto, Claims, JwtConfig, Draw, hash_token_identifier}
use hotel_server_v.Auth.Service.{of_family, refresh_row, rotate, refresh}
use hotel_server_v.Auth.Rotation.Rows.{
  IsKeyed, has_id, live_count, live_count-put_token, IsKeyed-put_token, IsKeyed-append_one,
  live_count-append_one, get_by_hash-append_one, live_count-revoke_family, IsKeyed-revoke_family,
}

pub record IsValid (d : Accounts) : Type 0 where
  pub keyed : IsKeyed d.tokens
  pub one_live : (f : ℕ) → live_count f d.tokens ≤ 1

-- The identifiers that `uuid4` drew are not in use.
pub record IsFresh (draw : Draw) (d : Accounts) : Type 0 where
  pub new_id : has_id draw.token_id d.tokens ≡ false
  pub new_family : live_count draw.family_id d.tokens ≡ 0

module _ (c : Crypto) (config : JwtConfig) (u : Unicode) (draw : Draw)
    (agent ip : Option String) where
  abbrev pub spent : RefreshToken → RefreshToken
  spent stored = record stored { revoked_at = some draw.now; replaced_by_id = some draw.token_id }

  abbrev pub rotated : RefreshToken → ℕ → Accounts → Accounts
  rotated stored user_id d = record d {
    tokens =
        put_token (spent stored)
          (d.tokens ++ refresh_row c config u draw user_id stored.family_id agent ip ∷ []);
  }

  -- A rotation changes nothing, or retires the presented row and adds its successor.
  pub rotate-cases :
      (stored : RefreshToken) (d : Accounts)
      → let d' = (request (rotate c config u draw stored agent ip) d).1 in
        (d' ≡ d) ⊎ ((user_id : ℕ) × (d' ≡ rotated stored user_id d))
  unfolding rotate
  rotate-cases stored d = elim (Option-cases (get_by_id stored.user_id d.users)) [
    | inl e ↦ inl (ground arith)
    | inr (user, e) ↦
        elim (Bool-cases (
          leb stored.expires_at draw.now
          || not (is_active user.status)
          || any (λ t. t.token_hash == hash_token_identifier c draw.refresh_jti) d.tokens)) [
            | inl p ↦ inl (ground arith)
            | inr p ↦ inr (user.id, ground arith)
          ]
  ]

  -- A presented token of the family `f` is a row that is neither revoked nor replaced.
  abbrev pub Unused : RefreshToken → Type 0
  Unused stored = (stored.revoked_at ≡ none) × (stored.replaced_by_id ≡ none)

  -- What `refresh` may do to the stored data: nothing, revoke a family, or rotate an unused row.
  abbrev pub Outcome : Accounts → Accounts → Type 0
  Outcome d d' =
      (d' ≡ d)
      ⊎ ((f : ℕ) × (d' ≡ record d { tokens = revoke_family f draw.now d.tokens }))
      ⊎ ((h : String) × (stored : RefreshToken) × (get_by_hash h d.tokens ≡ some stored)
          × Unused stored
          × (d' ≡ (request (rotate c config u draw stored agent ip) d).1))

  refresh_row-cases :
      (token : String) (p : Claims) (stored : RefreshToken) (d : Accounts)
      → c.decode draw.now token ≡ some p
      → get_by_hash (hash_token_identifier c p.jti) d.tokens ≡ some stored
      → Outcome d (request (refresh c config u draw token agent ip) d).1
  unfolding refresh
  refresh_row-cases token p stored d e g = elim (Option-cases p.family) [
    | inl no_family ↦ inl (ground arith)
    | inr (f, e_f) ↦
        elim (Bool-cases (p.type == "refresh" && is_some (of_family c config u f (some stored)))) [
          | inl fits ↦
              elim (Bool-cases (is_some stored.revoked_at || is_some stored.replaced_by_id)) [
                | inl used ↦ inr (inl (stored.family_id, ground arith))
                | inr unused ↦ inr (
                    inr (
                      hash_token_identifier c p.jti,
                      stored,
                      g,
                      (ground arith, ground arith),
                      ground arith,
                    ))
              ]
          | inr other ↦ inl (ground arith)
        ]
  ]

  pub refresh-cases :
      (token : String) (d : Accounts)
      → Outcome d (request (refresh c config u draw token agent ip) d).1
  unfolding refresh
  refresh-cases token d = elim (Option-cases (c.decode draw.now token)) [
    | inl e ↦ inl (ground arith)
    | inr (p, e) ↦ elim (Option-cases (get_by_hash (hash_token_identifier c p.jti) d.tokens)) [
      | inl g ↦ inl (ground arith)
      | inr (stored, g) ↦ refresh_row-cases token p stored d e g
    ]
  ]

  rotated-IsValid :
      (h : String) (stored : RefreshToken) (user_id : ℕ) (d : Accounts)
      → get_by_hash h d.tokens ≡ some stored
      → Unused stored
      → IsFresh draw d
      → IsValid d
      → IsValid (rotated stored user_id d)
  rotated-IsValid h stored user_id d e n fresh v =
      let new : RefreshToken = refresh_row c config u draw user_id stored.family_id agent ip in
      let keyed : IsKeyed (d.tokens ++ new ∷ []) =
        IsKeyed-append_one new d.tokens fresh.new_id v.keyed in
      record {
        keyed = IsKeyed-put_token (spent stored) (d.tokens ++ new ∷ []) keyed;
        one_live = λ f. ground (
          arith,
          n.0,
          v.one_live f,
          live_count-append_one f new d.tokens,
          live_count-put_token h stored (spent stored) refl f (d.tokens ++ new ∷ []) keyed
              (get_by_hash-append_one h stored new d.tokens e),
        );
      }

  revoke_family-IsValid :
      (f : ℕ) (d : Accounts)
      → IsValid d
      → IsValid (record d { tokens = revoke_family f draw.now d.tokens })
  revoke_family-IsValid f d v = record {
    keyed = IsKeyed-revoke_family f draw.now d.tokens v.keyed;
    one_live = λ g. ground (arith, live_count-revoke_family f g draw.now d.tokens, v.one_live g);
  }

  -- A call of `refresh` keeps the invariant, whatever token is presented and however it ends.
  pub refresh-IsValid :
      (token : String) (d : Accounts)
      → IsFresh draw d
      → IsValid d
      → IsValid (request (refresh c config u draw token agent ip) d).1
  refresh-IsValid token d fresh v = elim (refresh-cases token d) [
    | inl e ↦ rw e v
    | inr (inl (f, e)) ↦ rw e (revoke_family-IsValid f d v)
    | inr (inr (h, stored, g, n, e)) ↦ elim (rotate-cases stored d) [
      | inl same ↦ rw (e, same) v
      | inr (user_id, r) ↦ rw (e, r) (rotated-IsValid h stored user_id d g n fresh v)
    ]
  ]
