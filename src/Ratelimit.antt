-- ===== src/Ratelimit.antt =====
-- internal/ratelimit/limiter.go. An instant is a number of nanoseconds since the zero time, and
-- an int or a time.Duration is its 64-bit pattern. The readings of the clock are arguments, in
-- the order in which the code makes them.
pub mod Window
use discord_lite_server.Base.{
  ℕ, ◌+◌, ◌*◌, ◌-◌, ◌%◌, Bool, true, false, ◌&&◌, not, String, Option, none, some, List, [], ◌∷◌,
  string_eq, ◌==◌, nat_eq, ltb, leb, if◌then◌else◌,
}
use Prim.Native.Nat.{min}
use discord_lite_server.Base.Words.{half_range, range, is_positive}
use discord_lite_server.Base.Assoc.{lookup, insert}

abbrev pub second : ℕ
second = 1000000000

-- time.Until, which saturates at the ends of time.Duration.
unfoldable pub until : ℕ → ℕ → ℕ
until now t = if leb now t then min (t - now) (half_range - 1) else range - min (now - t) half_range

-- Time.Add with a duration that is not negative.
abbrev pub add : ℕ → ℕ → ℕ
add now d = now + d

-- time.Duration(seconds) * time.Second
abbrev pub in_seconds : ℕ → ℕ
in_seconds n = (n * second) % range

-- strconv and time as they parse a header, and golang.org/x/time/rate: `initial` is the limiter
-- of five requests a second, `per_window` the one of a limit and a positive duration, and `take`
-- waits for a token from an instant on; `none` is its error.
pub record Library (L : Type 0) : Type 0 where
  pub parse_int : String → Option ℕ
  pub parse_time : String → Option ℕ
  pub unix : ℕ → ℕ
  pub initial : L
  pub per_window : ℕ → ℕ → L
  pub take : ℕ → L → Option (ℕ × L)

pub record Bucket (L : Type 0) : Type 0 where
  pub remaining : ℕ
  pub limit : ℕ
  pub reset_at : ℕ
  pub limiter : L

abbrev pub RateLimiter : Type 0 → Type 0
RateLimiter L = List (String × Bucket L)

abbrev pub Headers : Type 0
Headers = List (String × List String)

abbrev pub new_rate_limiter : {L : Type 0} → RateLimiter L
new_rate_limiter = []

-- headers[key], when it is there and not empty: its first value.
abbrev first_of : Option (List String) → Option String
first_of none = none
first_of (some []) = none
first_of (some (x ∷ xs)) = some x

unfoldable pub header : String → Headers → Option String
header key headers = first_of (lookup key headers)

-- A parse of a header that may be missing.
abbrev pub parsed : {A : Type 0} → (String → Option A) → Option String → Option A
parsed parse none = none
parsed parse (some x) = parse x

abbrev pub or_else : {A : Type 0} → Option A → A → A
or_else none a = a
or_else (some b) a = b

abbrev pub at_least_one : ℕ → ℕ
at_least_one d = if is_positive d then d else second

-- time.Sleep wakes when the duration is over, and at once for one that is not positive.
abbrev pub sleep : ℕ → ℕ → ℕ
sleep now d = if is_positive d then now + d else now

-- When the sleep of Wait is over: the clock is read for the test, again for the duration.
unfoldable pub slept : {L : Type 0} → ℕ → ℕ → Bucket L → ℕ
slept tested at b =
    if not (is_positive b.remaining) && ltb tested b.reset_at
    then sleep at (until at b.reset_at)
    else at

module _ {L : Type 0} (lib : Library L) where
  abbrev pub new_bucket : ℕ → Bucket L
  new_bucket now = record {
    remaining = 5;
    limit = 5;
    reset_at = add now second;
    limiter = lib.initial;
  }

  unfoldable pub get_bucket : String → ℕ → RateLimiter L → Bucket L × RateLimiter L
  get_bucket endpoint now rl = elim (lookup endpoint rl) [
    | some b ↦ (b, rl)
    | none ↦ (new_bucket now, insert endpoint (new_bucket now) rl)
  ]

  -- The instant at which Wait returns.
  unfoldable pub wait : String → ℕ → ℕ → ℕ → RateLimiter L → Option ℕ × RateLimiter L
  wait endpoint now tested at rl =
      let (b, rl') = get_bucket endpoint now rl in
      elim (lib.take (slept tested at b) b.limiter) [
        | none ↦ (none, rl')
        | some (t, limiter) ↦ (some t, insert endpoint (record b { limiter = limiter }) rl')
      ]

  abbrev parse_reset : String → Option ℕ
  parse_reset x = elim (lib.parse_time x) [
    | some t ↦ some t
    | none ↦ elim (lib.parse_int x) [ none ↦ none | some n ↦ some (lib.unix n) ]
  ]

  unfoldable pub read_headers : Headers → Bucket L → Bucket L
  read_headers headers b = record b {
    remaining = or_else (parsed lib.parse_int (header "X-RateLimit-Remaining" headers)) b.remaining;
    limit = or_else (parsed lib.parse_int (header "X-RateLimit-Limit" headers)) b.limit;
    reset_at = or_else (parsed parse_reset (header "X-RateLimit-Reset" headers)) b.reset_at;
  }

  unfoldable pub renew_limiter : ℕ → Bucket L → Bucket L
  renew_limiter at b =
      if is_positive b.limit && is_positive (until at b.reset_at)
      then record b { limiter = lib.per_window b.limit (until at b.reset_at) }
      else b

  unfoldable pub update_from_headers : String → Headers → ℕ → ℕ → RateLimiter L → RateLimiter L
  update_from_headers endpoint headers now at rl =
      let (b, rl') = get_bucket endpoint now rl in
      insert endpoint (renew_limiter at (read_headers headers b)) rl'

  abbrev pub after_reset : ℕ → Option ℕ → ℕ
  after_reset at none = 0
  after_reset at (some n) = until at (lib.unix n)

  abbrev pub retry_header : Headers → ℕ
  retry_header headers = elim (parsed lib.parse_int (header "Retry-After" headers)) [
    | none ↦ 0
    | some n ↦ in_seconds n
  ]

  unfoldable pub retry_after : Headers → ℕ → ℕ
  retry_after headers at = at_least_one (
      if retry_header headers == 0
      then after_reset at (parsed lib.parse_int (header "X-Ratelimit-Reset" headers))
      else retry_header headers)

  -- The duration that the returned error names.
  unfoldable pub handle_rate_limit_response :
      String → Headers → ℕ → ℕ → ℕ → RateLimiter L → ℕ × RateLimiter L
  handle_rate_limit_response endpoint headers now at later rl =
      let (b, rl') = get_bucket endpoint now rl in
      let d = retry_after headers at in
      (d, insert endpoint (record b { remaining = 0; reset_at = add later d }) rl')

  unfoldable pub get_status : String → ℕ → RateLimiter L → (ℕ × ℕ × ℕ) × RateLimiter L
  get_status endpoint now rl =
      let (b, rl') = get_bucket endpoint now rl in ((b.remaining, b.limit, b.reset_at), rl')

  unfoldable pub reset : RateLimiter L → RateLimiter L
  reset rl = []
