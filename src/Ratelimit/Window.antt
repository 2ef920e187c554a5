-- ===== src/Ratelimit/Window.antt =====
-- internal/ratelimit/limiter.go: when Wait lets a request through, and what the headers of a
-- response change.
use discord_lite_server.Base.{
  ℕ, ◌+◌, ◌-◌, ◌≤◌, ◌≡◌, ◌≢◌, refl, sym, ap, ◌∙◌, ◌&&◌, String, none, some, [], ◌∷◌, string_eq,
  ◌==◌, nat_eq, arith, inl, inr, if◌then◌else◌, Bool-cases, Option-cases, beq_refl, beq_of_ne,
  eq_of_beq, subst,
}
use discord_lite_server.Base.Rows.{All}
use discord_lite_server.Base.Words.{is_positive}
use discord_lite_server.Base.Assoc.{lookup, insert, lookup-insert}
use discord_lite_server.Ratelimit.{
  until, Library, Bucket, RateLimiter, Headers, header, get_bucket, new_bucket, slept, wait,
  read_headers, renew_limiter, update_from_headers, retry_after, handle_rate_limit_response,
  get_status, at_least_one, retry_header, parsed, after_reset, or_else,
}

-- What golang.org/x/time/rate promises: a token is not handed out before it is asked for.
abbrev pub TakesLater : {L : Type 0} → Library L → Type 0
TakesLater lib = (now t : ℕ) (l l' : _) → lib.take now l ≡ some (t, l') → now ≤ t

until-reaches :
    (now t : ℕ)
    → t - now ≤ 9223372036854775807
    → t ≤ (if is_positive (until now t) then now + until now t else now)
unfolding until
until-reaches now t h = ground arith

at_least_one-bounds : (d : ℕ) → (1 ≤ at_least_one d) × (at_least_one d ≤ 9223372036854775807)
at_least_one-bounds d = ground arith

-- A bucket without requests left is slept on until its reset.
slept-reset :
    {L : Type 0} (b : Bucket L) (tested at : ℕ)
    → b.remaining ≡ 0
    → tested ≤ at
    → b.reset_at - at ≤ 9223372036854775807
    → b.reset_at ≤ slept tested at b
unfolding slept
slept-reset b tested at e h near = rw e (ground (arith, h, until-reaches at b.reset_at near))

module _ {L : Type 0} (lib : Library L) where
  -- What a bucket is after it has been written.
  get_bucket-insert :
      (endpoint : String) (now : ℕ) (b : Bucket L) (rl : RateLimiter L)
      → get_bucket lib endpoint now (insert endpoint b rl) ≡ (b, insert endpoint b rl)
  unfolding get_bucket
  get_bucket-insert endpoint now b rl =
      rw (get_bucket, lookup-insert endpoint endpoint b rl, beq_refl endpoint) refl

  retry_after-bounds :
      (headers : Headers) (at : ℕ)
      → (1 ≤ retry_after lib headers at) × (retry_after lib headers at ≤ 9223372036854775807)
  unfolding retry_after
  retry_after-bounds headers at =
      let by_header = retry_header lib headers in
      let by_reset = parsed lib.parse_int (header "X-Ratelimit-Reset" headers) in
      at_least_one-bounds (if by_header == 0 then after_reset lib at by_reset else by_header)

  module _ (later_take : TakesLater lib) where
    wait-slept :
        (endpoint : String) (now tested at t : ℕ) (b : Bucket L) (rl : RateLimiter L)
        → (wait lib endpoint now tested at (insert endpoint b rl)).0 ≡ some t
        → slept tested at b ≤ t
    unfolding wait
    wait-slept endpoint now tested at t b rl =
        rw (wait, get_bucket-insert endpoint now b rl)
          (elim (Option-cases (lib.take (slept tested at b) b.limiter)) [
            | inl e ↦ rw e (λ h. absurd (ground (arith, h)))
            | inr ((t', l), e) ↦ rw e (λ h. ground (arith, h, later_take _ _ _ _ e))
          ])

    -- When a Wait for the endpoint follows the handling of a 429 answer and returns, it returns no
    -- sooner than the duration that the error of the handler names after the handler's last
    -- reading of the clock; and that duration is positive, whatever the headers were.
    pub wait-after_429 :
        (endpoint : String) (headers : Headers) (now at later now' tested' at' t : ℕ)
        (rl : RateLimiter L)
        → later ≤ at'
        → tested' ≤ at'
        → (wait lib endpoint now' tested' at'
            (handle_rate_limit_response lib endpoint headers now at later rl).1).0
          ≡ some t
        → (1 ≤ (handle_rate_limit_response lib endpoint headers now at later rl).0)
          × (later + (handle_rate_limit_response lib endpoint headers now at later rl).0 ≤ t)
    unfolding handle_rate_limit_response
    wait-after_429 endpoint headers now at later now' tested' at' t rl after order h =
        let d = retry_after lib headers at in
        let (low, high) = retry_after-bounds headers at in
        let (old, rl') = get_bucket lib endpoint now rl in
        let b : Bucket L = record old { remaining = 0; reset_at = later + d } in
        let woken = slept-reset b tested' at' refl order (omega (arith, high, after)) in
        let until_then = wait-slept endpoint now' tested' at' t b rl' h in
        (low, omega (arith, woken, until_then))

  abbrev status : Bucket L → ℕ × ℕ × ℕ
  status b = (b.remaining, b.limit, b.reset_at)

  get_bucket-known :
      (endpoint : String) (now : ℕ) (rl : RateLimiter L)
      → lookup endpoint (get_bucket lib endpoint now rl).1 ≡ some (get_bucket lib endpoint now rl).0
  unfolding get_bucket
  get_bucket-known endpoint now rl = elim (Option-cases (lookup endpoint rl)) [
    | inl e ↦
        rw
          (
            get_bucket,
            e,
            lookup-insert endpoint endpoint (new_bucket lib now) rl,
            beq_refl endpoint,
          )
          refl
    | inr (b, e) ↦ rw (get_bucket, e) e
  ]

  get_status-lookup :
      (endpoint : String) (now : ℕ) (rl : RateLimiter L)
      → (get_status lib endpoint now rl).0
        ≡ status (or_else (lookup endpoint rl) (new_bucket lib now))
  unfolding get_status get_bucket
  get_status-lookup endpoint now rl = elim (Option-cases (lookup endpoint rl)) [
    | inl e ↦ rw (get_status, get_bucket, e) refl
    | inr (b, e) ↦ rw (get_status, get_bucket, e) refl
  ]

  -- A write that keeps the status of its bucket keeps every status.
  status-insert :
      (endpoint other : String) (now : ℕ) (b b' : Bucket L) (rl : RateLimiter L)
      → lookup endpoint rl ≡ some b
      → status b' ≡ status b
      → (get_status lib other now (insert endpoint b' rl)).0 ≡ (get_status lib other now rl).0
  status-insert endpoint other now b b' rl e same =
      rw (get_status-lookup other now (insert endpoint b' rl), get_status-lookup other now rl)
        (elim (Bool-cases (endpoint == other)) [
          | inl here ↦
              let there : lookup other rl ≡ some b =
                subst (λ k. lookup k rl ≡ some b) (eq_of_beq endpoint other here) e in
              rw (lookup-insert endpoint other b' rl, here, there) same
          | inr away ↦ rw (lookup-insert endpoint other b' rl, away) refl
        ])

  renew_limiter-status : (at : ℕ) (b : Bucket L) → status (renew_limiter lib at b) ≡ status b
  unfolding renew_limiter
  renew_limiter-status at b =
      elim (Bool-cases (is_positive b.limit && is_positive (until at b.reset_at))) [
        | inl e ↦ rw e refl
        | inr e ↦ rw e refl
      ]

  -- What UpdateFromHeaders reads of headers whose keys have the form that net/http gives them.
  module _ (canonical : String → String) where
    header-canonical :
        (key : String) (headers : Headers)
        → canonical key ≢ key
        → All (λ h. canonical h.0 ≡ h.0) headers
        → header key headers ≡ none
    unfolding header lookup
    header-canonical key [] ne all = refl
    header-canonical key ((k, values) ∷ rest) ne (e, all) =
        let other : k ≢ key = λ same. ne (ap canonical (sym same) ∙ e ∙ same) in
        rw (beq_of_ne k key other) (header-canonical key rest ne all)

    -- When the keys of the headers are those that net/http makes, none of which is
    -- X-RateLimit-Remaining, X-RateLimit-Limit or X-RateLimit-Reset, UpdateFromHeaders leaves the
    -- status of every endpoint as it was, whatever the response says.
    pub update_from_headers-canonical :
        (endpoint other : String) (headers : Headers) (now at now' : ℕ) (rl : RateLimiter L)
        → canonical "X-RateLimit-Remaining" ≢ "X-RateLimit-Remaining"
        → canonical "X-RateLimit-Limit" ≢ "X-RateLimit-Limit"
        → canonical "X-RateLimit-Reset" ≢ "X-RateLimit-Reset"
        → All (λ h. canonical h.0 ≡ h.0) headers
        → (get_status lib other now' (update_from_headers lib endpoint headers now at rl)).0
          ≡ (get_status lib other now' (get_bucket lib endpoint now rl).1).0
    unfolding update_from_headers read_headers
    update_from_headers-canonical endpoint other headers now at now' rl na nb nc all =
        let ha = header-canonical "X-RateLimit-Remaining" headers na all in
        let hb = header-canonical "X-RateLimit-Limit" headers nb all in
        let hc = header-canonical "X-RateLimit-Reset" headers nc all in
        let (b, rl') = get_bucket lib endpoint now rl in
        status-insert endpoint other now' b (renew_limiter lib at (read_headers lib headers b)) rl'
          (get_bucket-known endpoint now rl)
          (renew_limiter-status at (read_headers lib headers b) ∙ rw (ha, hb, hc) refl)
