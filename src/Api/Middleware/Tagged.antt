-- ===== src/Api/Middleware/Tagged.antt =====
-- The request ids that the middleware of api/main.py puts on the answers and in the log.
use relayq.Prelude.{
  ℕ, String, ◌≡◌, ◌⊎◌, inl, inr, refl, Option, none, some, List, [], ◌∷◌, str_eq, eq_refl,
  Bool-cases, if◌then◌else◌,
}
use relayq.Effect.{Result, ok, err}
use relayq.Effect.Action.{continue, ◌>>=◌}
use relayq.Api.RateLimit.{TokenBucketRateLimiter, allow}
use relayq.Api.Middleware.{
  Request, Response, Process, Sources, Handler, read, write_log, tag, set_header, too_many_requests,
  created, limited, rate_limit_middleware, structured_logging_middleware, id_or,
  request_id_middleware, serve,
}

-- `response.headers.get(name)`
unfoldable pub header : String → List (String × String) → Option String
header name [] = none
header name ((k, v) ∷ rest) =
    let found = header name rest in if str_eq k name then some v else found

header-set_header :
    (name value : String) (headers : List (String × String))
    → header name (set_header name value headers) ≡ some value
unfolding header set_header
header-set_header name value [] = rw (eq_refl name) refl
header-set_header name value ((k, v) ∷ rest) = elim (Bool-cases (str_eq k name)) [
  | inl same ↦ rw same (rw same refl)
  | inr other ↦ rw other (rw other (header-set_header name value rest))
]

-- The answer carries the id that the request gave, or one that was drawn for it.
unfoldable pub IsTagged : Request → Result Response → Type 0
IsTagged asked (ok response) =
    (id : String) × (header "X-Request-Id" response.headers ≡ some id)
    × ((given : String) → asked.given_id ≡ some given → id ≡ given)
IsTagged asked (err e) = Unit

module _ {S : Type 0} (sources : Sources S) (asked : Request) (call_next : Handler S) where
  tag-IsTagged :
      (fresh : String) (r : Result Response) (s : Process S)
      → IsTagged asked (continue r (tag (id_or asked.given_id fresh)) s).0
  unfolding IsTagged
  tag-IsTagged fresh (ok response) s = (
    id_or asked.given_id fresh,
    header-set_header "X-Request-Id" (id_or asked.given_id fresh) response.headers,
    λ given e. rw e refl,
  )
  tag-IsTagged fresh (err e) s = tt

  request_id-IsTagged :
      (s : Process S) → IsTagged asked (request_id_middleware sources asked call_next s).0
  unfolding request_id_middleware
  request_id-IsTagged s =
      let (fresh, rest') = sources.uuid4 s.rest in
      let s' : Process S = record s {
        request_id = some (id_or asked.given_id fresh);
        rest = rest';
      } in
      let (r, after) = call_next s' in tag-IsTagged fresh r after

  -- The log changes nothing of the answer.
  logged :
      (start : ℕ) (r : Result Response) (s : Process S)
      → (continue r
          (λ response. read sources.utcnow >>= λ end. write_log asked start end response)
          s).0
        ≡ r
  logged start (ok response) s = refl
  logged start (err e) s = refl

  logging-IsTagged :
      (s : Process S)
      → IsTagged asked
          (structured_logging_middleware sources asked
            (request_id_middleware sources asked call_next)
            s).0
  unfolding structured_logging_middleware
  logging-IsTagged s =
      let (start, rest') = sources.utcnow s.rest in
      let s' : Process S = record s { rest = rest' } in
      let (r, after) = request_id_middleware sources asked call_next s' in
      rw (logged start r after) (request_id-IsTagged s')

  limited-IsTagged :
      (now : ℕ) (limiter : Option TokenBucketRateLimiter) (s : Process S)
      → let r =
          (limited limiter now
            (structured_logging_middleware sources asked
              (request_id_middleware sources asked call_next))
            s).0 in
        (r ≡ ok too_many_requests) ⊎ IsTagged asked r
  limited-IsTagged now none s = inr (logging-IsTagged s)
  limited-IsTagged now (some limiter) s = elim (Bool-cases (allow limiter 1 now s.bucket).0) [
    | inl granted ↦ rw granted (inr (logging-IsTagged _))
    | inr refused ↦ rw refused (inl refl)
  ]

  -- Whatever the endpoints do and the process was before, a request ends in an exception that an endpoint
  -- or middleware lets through, or in the limiter's 429, or in an answer with the header X-Request-Id, whose
  -- value is the id that the request gave, if it gave one.
  pub serve-IsTagged :
      (now : ℕ) (s : Process S)
      → let r = (serve sources now asked call_next s).0 in
        (r ≡ ok too_many_requests) ⊎ IsTagged asked r
  unfolding serve rate_limit_middleware
  serve-IsTagged now s =
      limited-IsTagged now (created s.rate_limiter s.has_redis)
        (record s { rate_limiter = created s.rate_limiter s.has_redis })
