-- ===== src/RateLimit/Tests.antt =====
-- About a limit of two requests a minute over a table of counters.
use hotel_server_v.Base.{
  ℕ, suc, ◌≤◌, String, true, false, none, some, List, [], ◌∷◌, ◌≡◌, refl, arith, ◌==◌, string_eq,
  if◌then◌else◌,
}
use hotel_server_v.Base.Dict.{lookup, insert, lookup-insert}
use hotel_server_v.Base.Exec.{ok}
use hotel_server_v.RateLimit.{Redis, Limit, Settings, check, admitted, rate_key}
use hotel_server_v.RateLimit.Window.{IsRedis, live_count, expiry_after, admitted-limit, check-again}

abbrev Counters : Type 0
Counters = List (String × (ℕ × ℕ))

abbrev consumed : String → ℕ → ℕ → Counters → ℕ × Counters
consumed key seconds now s =
    let n = suc (live_count now (lookup key s)) in
    (n, insert key (n, expiry_after now seconds (lookup key s)) s)

abbrev counters : Redis
counters = record {
  State = Counters;
  consume = λ key seconds now s. some (consumed key seconds now s);
}

abbrev counters_laws : IsRedis counters
counters_laws = record {
  view = λ key s. lookup key s;
  consume_count = λ key seconds now n s s' h. ground (arith, h);
  consume_view = λ key seconds now n s s' h. ground (
    arith,
    h,
    lookup-insert key key
        (suc (live_count now (lookup key s)), expiry_after now seconds (lookup key s)) s,
    string_eq.same_iff key key,
  );
}

abbrev settings : Settings
settings = record {
  unicode = record { fold = λ c. String.◌∷◌ c String.[]; alnum = λ c. true; lower = λ s. s };
  parse_int = λ s. if s == "2" then some 2 else none;
  prefix = "app";
  fail_open = false;
}

abbrev two_a_minute : Limit
two_a_minute = record { requests = 2; window_seconds = 60 }

-- Three requests in ten seconds: two pass.
three_requests : admitted counters settings "login" "me" "2/minute" (100 ∷ 105 ∷ 110 ∷ []) [] ≡ 2
unfolding admitted lookup insert
three_requests = refl

admitted-limit_example :
    admitted counters settings "login" "me" "2/minute" (100 ∷ 105 ∷ 110 ∷ []) [] ≤ 2
unfolding lookup hotel_server_v.RateLimit.parse_limit
admitted-limit_example =
    admitted-limit counters counters_laws settings "login" "me" "2/minute" two_a_minute refl refl
      160 (100 ∷ 105 ∷ 110 ∷ []) []
      (
        (omega arith, omega arith, refl),
        ((omega arith, omega arith, refl), ((omega arith, omega arith, refl), tt)),
      )

-- Two requests were counted in the window that ends at 160.
abbrev used : Counters
used = ("app:rate:login:me", (2, 160)) ∷ []

abbrev refused : Counters
refused = ("app:rate:login:me", (3, 160)) ∷ []

check-again_example : (check counters settings "login" "me" "2/minute" 170 refused).0 ≡ ok tt
unfolding hotel_server_v.RateLimit.parse_limit lookup check insert
check-again_example =
    check-again counters counters_laws settings "login" "me" "2/minute" two_a_minute refl refl 110
      170 60 used refused refl (omega arith) (omega arith) refl
