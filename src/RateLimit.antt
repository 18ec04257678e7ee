-- ===== src/RateLimit.antt =====
-- common/rate_limit.py: a fixed window per principal over a counter in Redis.
pub mod Window
mod Tests
use Prim.Native.Char.{code}
use hotel_server_v.Base.{
  ℕ, suc, string_eq, String, Bool, true, false, Option, none, some, List, [], ◌∷◌, ltb, eqb,
  if◌then◌else◌,
}
use hotel_server_v.Base.Dict.{lookup}
use hotel_server_v.Base.Text.{Unicode, text_append}
use hotel_server_v.Base.Exec.{Result, ok, err}
use hotel_server_v.Errors.{Error, rate_limit_exceeded, dependency_unavailable, unexpected}

-- `incr` and `expire(..., nx=True)` of one key in one transaction: the key, the seconds and the time
-- of the call. `none` where the client raises; the transaction then has no effect.
pub record Redis : Type 1 where
  pub State : Type 0
  pub consume : String → ℕ → ℕ → State → Option (ℕ × State)

pub record Limit : Type 0 where
  pub requests : ℕ
  pub window_seconds : ℕ

-- `value.split("/", maxsplit=1)` into two parts; `none` where there is one part.
unfoldable pub split_once : String → Option (String × String)
split_once String.[] = none
split_once (String.◌∷◌ c s) =
    let rest = split_once s in
    if eqb (code c) 47
    then some (String.[], s)
    else elim rest [ none ↦ none | some (a, b) ↦ some (String.◌∷◌ c a, b) ]

pub windows : List (String × ℕ)
windows = ("second", 1) ∷ ("minute", 60) ∷ ("hour", 3600) ∷ ("day", 86400) ∷ []

abbrev limit_of : Option ℕ → Option ℕ → Option Limit
limit_of none w = none
limit_of (some n) none = none
limit_of (some n) (some w) =
    if ltb n 1 then none else some (record { requests = n; window_seconds = w })

-- `parse_int` is `int` of a text, where that is a number from 0 up. `none` is the `ValueError`.
unfoldable pub parse_limit : Unicode → (String → Option ℕ) → String → Option Limit
unfolding split_once windows
parse_limit u parse_int value = elim (split_once (u.lower value)) [
  | none ↦ none
  | some (amount, unit) ↦ limit_of (parse_int amount) (lookup unit windows)
]

-- The end of `check`, with the reply of the transaction.
abbrev pub decide : {S : Type 0} → Bool → Limit → S → Option (ℕ × S) → Result (Unit {0}) × S
decide true limit s none = (ok tt, s)
decide false limit s none = (err (dependency_unavailable "Rate-limit service unavailable"), s)
decide fail_open limit s (some (count, s')) =
    if ltb limit.requests count
    then (err (rate_limit_exceeded limit.window_seconds), s')
    else (ok tt, s')

abbrev pub rate_key : String → String → String → String
rate_key prefix bucket principal =
    text_append prefix (text_append ":rate:" (text_append bucket (text_append ":" principal)))

-- A limiter's configuration: the prefix of its keys, and whether it lets requests through when
-- Redis fails.
pub record Settings : Type 0 where
  pub unicode : Unicode
  pub parse_int : String → Option ℕ
  pub prefix : String
  pub fail_open : Bool

-- `RateLimiter.check` at a time.
unfoldable pub check :
    (c : Redis) → Settings → String → String → String → ℕ → c.State → Result (Unit {0}) × c.State
unfolding parse_limit
check c settings bucket principal policy now s =
    elim (parse_limit settings.unicode settings.parse_int policy) [
      | none ↦ (err unexpected, s)
      | some limit ↦
          decide settings.fail_open limit s
            (c.consume (rate_key settings.prefix bucket principal) limit.window_seconds now s)
    ]

-- The number of requests that are let through, one after another at the given times.
unfoldable pub admitted : (c : Redis) → Settings → String → String → String → List ℕ → c.State → ℕ
unfolding check
admitted c settings bucket principal policy [] s = 0
admitted c settings bucket principal policy (now ∷ times) s =
    let (r, s') = check c settings bucket principal policy now s in
    let rest = admitted c settings bucket principal policy times s' in
    elim r [ ok x ↦ suc rest | err e ↦ rest ]
