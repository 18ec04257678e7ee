-- ===== src/RateLimit/Window.antt =====
-- About the requests of one principal in one window.
use hotel_server_v.Base.{
  ℕ, suc, string_eq, ◌+◌, ◌-◌, ◌≤◌, ◌<◌, String, Bool, true, false, Option, none, some, List, [],
  ◌∷◌, ◌≡◌, refl, inl, inr, Option-cases, arith, All, is_some, ltb, if◌then◌else◌,
}
use hotel_server_v.Base.Dict.{lookup}
use hotel_server_v.Base.Exec.{ok, err}
use hotel_server_v.Errors.{rate_limit_exceeded}
use hotel_server_v.RateLimit.{
  Redis, Limit, Settings, parse_limit, split_once, windows, rate_key, check, admitted,
}

-- The value of a key that is not expired.
abbrev pub live_count : ℕ → Option (ℕ × ℕ) → ℕ
live_count now none = 0
live_count now (some (n, expiry)) = if ltb now expiry then n else 0

abbrev pub expiry_after : ℕ → ℕ → Option (ℕ × ℕ) → ℕ
expiry_after now seconds none = now + seconds
expiry_after now seconds (some (n, expiry)) = if ltb now expiry then expiry else now + seconds

abbrev pub is_open : ℕ → Option (ℕ × ℕ) → Bool
is_open now none = false
is_open now (some (n, expiry)) = ltb now expiry

closed-count : (now : ℕ) (v : Option (ℕ × ℕ)) → is_open now v ≡ false → live_count now v ≡ 0
closed-count now none h = refl
closed-count now (some (n, expiry)) h = rw h refl

closed-expiry :
    (now seconds : ℕ) (v : Option (ℕ × ℕ))
    → is_open now v ≡ false
    → expiry_after now seconds v ≡ now + seconds
closed-expiry now seconds none h = refl
closed-expiry now seconds (some (n, expiry)) h = rw h refl

-- What Redis documents of `INCR` and `EXPIRE NX`: a missing or expired key counts from 0 and gets an
-- expiry, one that has an expiry keeps it. `view` is the value and the expiry of a key.
pub record IsRedis (c : Redis) : Type 0 where
  pub view : String → c.State → Option (ℕ × ℕ)
  pub consume_count :
      (key : String) (seconds now n : ℕ) (s s' : c.State)
      → c.consume key seconds now s ≡ some (n, s')
      → n ≡ suc (live_count now (view key s))
  pub consume_view :
      (key : String) (seconds now n : ℕ) (s s' : c.State)
      → c.consume key seconds now s ≡ some (n, s')
      → view key s' ≡ some (n, expiry_after now seconds (view key s))

parse_limit-positive :
    (settings : Settings) (policy : String) (limit : Limit)
    → parse_limit settings.unicode settings.parse_int policy ≡ some limit
    → 1 ≤ limit.requests
unfolding parse_limit
parse_limit-positive settings policy limit h =
    elim (Option-cases (split_once (settings.unicode.lower policy))) [
      | inl e ↦ ground (arith, e, h)
      | inr ((amount, unit), e) ↦ elim (Option-cases (settings.parse_int amount)) [
        | inl k ↦ ground (arith, e, k, h)
        | inr (n, k) ↦ elim (Option-cases (lookup unit windows)) [
          | inl q ↦ ground (arith, e, k, q, h)
          | inr (w, q) ↦ ground (arith, e, k, q, h)
        ]
      ]
    ]

module _ (c : Redis) (laws : IsRedis c) (settings : Settings)
    (bucket principal policy : String) where
  abbrev pub window_view : c.State → Option (ℕ × ℕ)
  window_view s = laws.view (rate_key settings.prefix bucket principal) s

  module _ (limit : Limit)
      (parsed : parse_limit settings.unicode settings.parse_int policy ≡ some limit)
      (closed : settings.fail_open ≡ false) where
    -- In an open window the requests that were counted use up the limit.
    admitted-open :
        (n expiry : ℕ) (times : List ℕ) (s : c.State)
        → window_view s ≡ some (n, expiry)
        → All (λ t. t < expiry) times
        → admitted c settings bucket principal policy times s ≤ limit.requests - n
    unfolding admitted check
    admitted-open n expiry [] s v h = omega arith
    admitted-open n expiry (now ∷ times) s v h =
        let key = rate_key settings.prefix bucket principal in
        elim (Option-cases (c.consume key limit.window_seconds now s)) [
          | inl e ↦ ground (arith, e, parsed, closed, admitted-open n expiry times s v h.1)
          | inr ((count, s'), e) ↦
              let counted = laws.consume_count key limit.window_seconds now count s s' e in
              let viewed = laws.consume_view key limit.window_seconds now count s s' e in
              let later =
                admitted-open (suc n) expiry times s' (ground (arith, counted, viewed, v, h.0))
                  h.1 in
              ground (arith, e, parsed, closed, later, counted, v, h.0)
        ]

    -- A time in the window of one length that ends at `end`, at which the key has expired.
    abbrev pub IsIn : ℕ → c.State → ℕ → Type 0
    IsIn end s t =
        (t < end) × (end ≤ t + limit.window_seconds) × (is_open t (window_view s) ≡ false)

    before_end :
        (end : ℕ) (s : c.State) (times : List ℕ) → All (IsIn end s) times → All (λ t. t < end) times
    before_end end s [] h = tt
    before_end end s (t ∷ ts) h = (h.0.0, before_end end s ts h.1)

    earlier :
        (end expiry : ℕ) (times : List ℕ)
        → end ≤ expiry
        → All (λ t. t < end) times
        → All (λ t. t < expiry) times
    earlier end expiry [] le h = tt
    earlier end expiry (t ∷ ts) le h = (omega (arith, le, h.0), earlier end expiry ts le h.1)

    -- A limiter that fails closed, with a policy that parses, over a Redis that counts and expires keys as documented, lets at most the policy's number of requests of a principal through at times that lie in one window length and at which no earlier window is open, whichever calls of Redis fail.
    pub admitted-limit :
        (end : ℕ) (times : List ℕ) (s : c.State)
        → All (IsIn end s) times
        → admitted c settings bucket principal policy times s ≤ limit.requests
    unfolding admitted check
    admitted-limit end [] s h = omega arith
    admitted-limit end (now ∷ times) s h =
        let key = rate_key settings.prefix bucket principal in
        elim (Option-cases (c.consume key limit.window_seconds now s)) [
          | inl e ↦ ground (arith, e, parsed, closed, admitted-limit end times s h.1)
          | inr ((count, s'), e) ↦
              let counted = laws.consume_count key limit.window_seconds now count s s' e in
              let viewed = laws.consume_view key limit.window_seconds now count s s' e in
              let expiry = expiry_after now limit.window_seconds (window_view s) in
              let one : count ≡ 1 =
                ground (arith, counted, closed-count now (window_view s) h.0.2) in
              let late : end ≤ expiry =
                omega
                  (arith, closed-expiry now limit.window_seconds (window_view s) h.0.2, h.0.1) in
              let later =
                admitted-open count expiry times s' viewed
                  (earlier end expiry times late (before_end end s times h.1)) in
              ground (arith, e, parsed, closed, later, one)
        ]

    -- For a limiter that fails closed, with a policy that parses, over a Redis that counts and expires keys as documented, when a principal was refused while no window of it was to last longer than one window length, and the next request is of that principal, at a time from one window length later on, it is let through if Redis answers it.
    pub check-again :
        (now later retry : ℕ) (s s' : c.State)
        → check c settings bucket principal policy now s ≡ (err (rate_limit_exceeded retry), s')
        → expiry_after now limit.window_seconds (window_view s) ≤ now + limit.window_seconds
        → now + limit.window_seconds ≤ later
        → is_some
            (c.consume (rate_key settings.prefix bucket principal) limit.window_seconds later s')
          ≡ true
        → (check c settings bucket principal policy later s').0 ≡ ok tt
    unfolding check
    check-again now later retry s s' q le after answers =
        let key = rate_key settings.prefix bucket principal in
        elim (Option-cases (c.consume key limit.window_seconds now s)) [
          | inl e ↦ ground (arith, e, parsed, closed, q)
          | inr ((count, t), e) ↦
              elim (Option-cases (c.consume key limit.window_seconds later s')) [
                | inl k ↦ ground (arith, k, answers)
                | inr ((again, u), k) ↦
                    let same : t ≡ s' = ground (arith, e, parsed, q) in
                    let counted = laws.consume_count key limit.window_seconds later again s' u k in
                    let viewed = laws.consume_view key limit.window_seconds now count s t e in
                    let expired : live_count later (window_view s') ≡ 0 =
                      ground (arith, viewed, same, le, after) in
                    let one : again ≡ 1 = ground (arith, counted, expired) in
                    ground
                      (arith, k, parsed, one, parse_limit-positive settings policy limit parsed)
              ]
        ]
