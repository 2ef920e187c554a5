-- ===== src/Tests/Limits.antt =====
-- A 429 answer, and the headers of net/http.
use discord_lite_server.Base.{
  ℕ, ◌+◌, ◌≤◌, ◌≡◌, ◌≢◌, String, some, none, [], ◌∷◌, refl, ◌==◌, string_eq, if◌then◌else◌, arith,
}
use discord_lite_server.Base.Assoc.{lookup, delete}
use discord_lite_server.Ratelimit.{
  Library, RateLimiter, Headers, new_rate_limiter, get_bucket, slept, until, wait, header,
  retry_after, handle_rate_limit_response, update_from_headers, get_status,
}
use discord_lite_server.Ratelimit.Window.{TakesLater, wait-after_429, update_from_headers-canonical}

-- A limiter that hands out a token at once, and a header that is two seconds.
abbrev library : Library ℕ
library = record {
  parse_int = λ x. some 2;
  parse_time = λ x. none;
  unix = λ n. n;
  initial = 0;
  per_window = λ limit d. d;
  take = λ now l. some (now, l);
}

library-TakesLater : TakesLater library
library-TakesLater now t l l' e = ground arith

abbrev answer : Headers
answer = ("Retry-After", "2" ∷ []) ∷ ("X-Ratelimit-Remaining", "2" ∷ []) ∷ []

abbrev limited : RateLimiter ℕ
limited = (handle_rate_limit_response library "/users/@me" answer 0 1 2 new_rate_limiter).1

waits : (wait library "/users/@me" 3 4 5 limited).0 ≡ some 2000000002
unfolding wait slept until get_bucket handle_rate_limit_response retry_after header lookup delete
waits = refl

wait-after_429_example :
    (1 ≤ (handle_rate_limit_response library "/users/@me" answer 0 1 2 new_rate_limiter).0)
    × (2 + (handle_rate_limit_response library "/users/@me" answer 0 1 2 new_rate_limiter).0
        ≤ 2000000002)
wait-after_429_example =
    wait-after_429 library library-TakesLater "/users/@me" answer 0 1 2 3 4 5 2000000002
      new_rate_limiter (omega arith) (omega arith) waits

-- The three keys in the form of net/http; every other key here has it.
abbrev canonical : String → String
canonical key =
    if key == "X-RateLimit-Remaining"
    then "X-Ratelimit-Remaining"
    else if key == "X-RateLimit-Limit"
    then "X-Ratelimit-Limit"
    else if key == "X-RateLimit-Reset"
    then "X-Ratelimit-Reset"
    else key

remaining_apart : canonical "X-RateLimit-Remaining" ≢ "X-RateLimit-Remaining"
remaining_apart e =
    ground (arith, (string_eq.beq_iff "X-Ratelimit-Remaining" "X-RateLimit-Remaining").1 e)

limit_apart : canonical "X-RateLimit-Limit" ≢ "X-RateLimit-Limit"
limit_apart e = ground (arith, (string_eq.beq_iff "X-Ratelimit-Limit" "X-RateLimit-Limit").1 e)

reset_apart : canonical "X-RateLimit-Reset" ≢ "X-RateLimit-Reset"
reset_apart e = ground (arith, (string_eq.beq_iff "X-Ratelimit-Reset" "X-RateLimit-Reset").1 e)

update_from_headers-canonical_example :
    (get_status library "/users/@me" 3
      (update_from_headers library "/users/@me" answer 0 1 new_rate_limiter)).0
    ≡ (get_status library "/users/@me" 3 (get_bucket library "/users/@me" 0 new_rate_limiter).1).0
update_from_headers-canonical_example =
    update_from_headers-canonical library canonical "/users/@me" "/users/@me" answer 0 1 3
      new_rate_limiter remaining_apart limit_apart reset_apart (refl, (refl, tt))
