-- ===== src/Auth/Rotation/Replay.antt =====
-- `AuthService.refresh` of services/auth.py on a token that was rotated or logged out.
use hotel_server_v.Base.{
  ℕ, String, ◌≡◌, refl, ap, ◌≢◌, false, inl, inr, Option, none, some, [], ◌∷◌, ◌++◌, arith,
  Option-cases, ◌==◌, string_eq, nat_eq, if◌then◌else◌, eqb_iff, string_eq_iff,
}
use hotel_server_v.Base.Exec.{ok, err, request}
use hotel_server_v.Base.Text.{Unicode}
use hotel_server_v.Errors.{refresh_token_reuse}
use hotel_server_v.Auth.Store.{RefreshToken, Accounts, get_by_hash, revoke_family, get_by_id}
use hotel_server_v.Auth.Security.{Crypto, Claims, JwtConfig, Draw, hash_token_identifier}
use hotel_server_v.Auth.Service.{TokenPair, refresh_row, refresh}
use hotel_server_v.Auth.Rotation.Rows.{
  IsKeyed, live_count, IsKeyed-append_one, get_by_hash-append_one, get_by_hash-put_token,
  get_by_hash-token_hash, live_count-revoke_family, has_id,
}
use hotel_server_v.Auth.Rotation.OneLive.{rotated, spent}

module _ (c : Crypto) (config : JwtConfig) (u : Unicode) (agent ip : Option String) where
  -- A used row that is presented: its family is revoked, and nothing else changes.
  refresh_used :
      (draw : Draw) (token : String) (p : Claims) (stored : RefreshToken) (d : Accounts)
      → c.decode draw.now token ≡ some p
      → p.type ≡ "refresh"
      → get_by_hash (hash_token_identifier c p.jti) d.tokens ≡ some stored
      → p.family ≡ some stored.family_id
      → stored.revoked_at ≢ none
      → request (refresh c config u draw token agent ip) d ≡ (
        err refresh_token_reuse,
        record d { tokens = revoke_family stored.family_id draw.now d.tokens },
      )
  unfolding refresh
  refresh_used draw token p stored d e t g f used = ground (arith, string_eq_iff p.type "refresh")

  -- A refresh that succeeds has rotated an unused row of the token's family.
  refresh_ok :
      (draw : Draw) (token : String) (p : Claims) (pair : TokenPair) (d : Accounts)
      → c.decode draw.now token ≡ some p
      → (request (refresh c config u draw token agent ip) d).0 ≡ ok pair
      → (stored : RefreshToken) × (get_by_hash (hash_token_identifier c p.jti) d.tokens
          ≡ some stored)
        × (p.type ≡ "refresh")
        × (p.family ≡ some stored.family_id)
        × (user_id : ℕ) × ((request (refresh c config u draw token agent ip) d).1
            ≡ rotated c config u draw agent ip stored user_id d)
  unfolding refresh
  refresh_ok draw token p pair d e r =
      elim (Option-cases (get_by_hash (hash_token_identifier c p.jti) d.tokens)) [
        | inl g ↦ absurd (ground arith)
        | inr (stored, g) ↦ elim (Option-cases (get_by_id stored.user_id d.users)) [
          | inl n ↦ absurd (ground arith)
          | inr (user, n) ↦ (
            stored,
            g,
            ground (arith, string_eq_iff p.type "refresh"),
            ground arith,
            user.id,
            ground arith,
          )
        ]
      ]

  -- Where token keys are unique and the new token's identifier is unused: after a successful refresh
  -- with a token of the family `f`, another presentation of the same token right after it,
  -- at any time at which it still decodes to its claims, is refused as reuse. It leaves no live token
  -- in that family, the successor included, and in any other family `g` as many as there were.
  pub refresh-refresh :
      (first second : Draw) (token : String) (p : Claims) (f g : ℕ) (pair : TokenPair)
      (d : Accounts)
      → c.decode first.now token ≡ some p
      → c.decode second.now token ≡ some p
      → p.family ≡ some f
      → IsKeyed d.tokens
      → has_id first.token_id d.tokens ≡ false
      → (request (refresh c config u first token agent ip) d).0 ≡ ok pair
      → let d' = (request (refresh c config u first token agent ip) d).1 in
        let (r, d'') = request (refresh c config u second token agent ip) d' in
        (r ≡ err refresh_token_reuse)
        × (live_count g d''.tokens ≡ (if g == f then 0 else live_count g d'.tokens))
  refresh-refresh first second token p f g pair d e e' fam keyed new_id r =
      let (stored, found, t, fam', user_id, eq) = refresh_ok first token p pair d e r in
      let new : RefreshToken = refresh_row c config u first user_id stored.family_id agent ip in
      let old : RefreshToken = spent c config u first agent ip stored in
      let h = hash_token_identifier c p.jti in
      let d' = rotated c config u first agent ip stored user_id d in
      let g' : get_by_hash h d'.tokens ≡ some old =
        get_by_hash-put_token h stored old refl (d.tokens ++ new ∷ [])
          (IsKeyed-append_one new d.tokens new_id keyed)
          (get_by_hash-token_hash h stored d.tokens found)
          (get_by_hash-append_one h stored new d.tokens found) in
      let same : f ≡ stored.family_id = cc in
      let q = refresh_used second token p old d' e' t g' fam' (λ n. cc) in
      rw eq (
        ap (λ x. x.0) q,
        rw q (
            ground (
              arith,
              eqb_iff g f,
              live_count-revoke_family stored.family_id g second.now d'.tokens,
            )),
      )
