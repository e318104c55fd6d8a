-- ===== src/Api/Middleware.antt =====
-- The middleware of api/main.py, each a function of `call_next`, and what `app.middleware` composes of them.
pub mod Served
pub mod Tagged
use relayq.Prelude.{
  ℕ, String, Bool, true, false, Option, none, some, List, [], ◌∷◌, str_eq, if◌then◌else◌,
}
use relayq.Effect.{Result, ok, err}
use relayq.Effect.Action.{Action, ◌>>=◌}
use relayq.Api.RateLimit.{Bucket, TokenBucketRateLimiter, allow}

-- `request.headers.get("X-Request-Id")`, `request.method` and `request.url.path`
pub record Request : Type 0 where
  pub given_id : Option String
  pub method : String
  pub path : String

pub record Response : Type 0 where
  pub content : String
  pub status_code : ℕ
  pub headers : List (String × String)

-- A line of the log, with the two readings of the clock whose difference it shows.
pub record LogLine : Type 0 where
  pub request_id : Option String
  pub method : String
  pub path : String
  pub status : ℕ
  pub start : ℕ
  pub end : ℕ

-- The module's `rate_limiter`, whether its `redis_client` is set, the hash of the bucket `ratelimit:api` in
-- Redis, the current request's `state.request_id`, the log, and whatever else the process keeps.
pub record Process (S : Type 0) : Type 0 where
  pub rate_limiter : Option TokenBucketRateLimiter
  pub has_redis : Bool
  pub bucket : Bucket
  pub request_id : Option String
  pub log : List LogLine
  pub rest : S

-- The clock that the log reads, in milliseconds, and `str(uuid.uuid4())`.
pub record Sources (S : Type 0) : Type 0 where
  pub utcnow : S → ℕ × S
  pub uuid4 : S → String × S

abbrev pub Handler : Type 0 → Type 0
Handler S = Action (Process S) Response

-- `response.headers[name] = value`
unfoldable pub set_header : String → String → List (String × String) → List (String × String)
set_header name value [] = (name, value) ∷ []
set_header name value ((k, v) ∷ rest) =
    let others = set_header name value rest in
    if str_eq k name then (k, value) ∷ rest else (k, v) ∷ others

abbrev pub api_limiter : TokenBucketRateLimiter
api_limiter = record { rate = 100; capacity = 150 }

-- `if rate_limiter is None and redis_client is not None`
abbrev pub created : Option TokenBucketRateLimiter → Bool → Option TokenBucketRateLimiter
created (some limiter) has_redis = some limiter
created none true = some api_limiter
created none false = none

abbrev pub too_many_requests : Response
too_many_requests = record {
  content = "{\"error\": \"rate_limit_exceeded\", \"retry_after\": 1}";
  status_code = 429;
  headers = ("Retry-After", "1") ∷ [];
}

abbrev pub id_or : Option String → String → String
id_or none fresh = fresh
id_or (some given) fresh = given

module _ {S : Type 0} where
  abbrev pub limited : Option TokenBucketRateLimiter → ℕ → Handler S → Handler S
  limited none now call_next s = call_next s
  limited (some limiter) now call_next s =
      let (allowed, bucket') = allow limiter 1 now s.bucket in
      let s' = record s { bucket = bucket' } in
      if allowed then call_next s' else (ok too_many_requests, s')

  -- A request at the time `now`.
  unfoldable pub rate_limit_middleware : ℕ → Handler S → Handler S
  unfolding allow
  rate_limit_middleware now call_next s =
      let limiter = created s.rate_limiter s.has_redis in
      limited limiter now call_next (record s { rate_limiter = limiter })

  -- A reading of a source.
  abbrev pub read : {A : Type 0} → (S → A × S) → Action (Process S) A
  read source s = let (a, rest') = source s.rest in (ok a, record s { rest = rest' })

  abbrev pub write_log : Request → ℕ → ℕ → Response → Handler S
  write_log asked start end response s =
      let line : LogLine = record {
        request_id = s.request_id;
        method = asked.method;
        path = asked.path;
        status = response.status_code;
        start = start;
        end = end;
      } in
      (ok response, record s { log = line ∷ s.log })

  unfoldable pub structured_logging_middleware : Sources S → Request → Handler S → Handler S
  structured_logging_middleware sources asked call_next = do
    start ← read sources.utcnow
    response ← call_next
    end ← read sources.utcnow
    write_log asked start end response

  abbrev assign_id : String → Action (Process S) (Unit {0})
  assign_id id s = (ok tt, record s { request_id = some id })

  abbrev pub tag : String → Response → Handler S
  tag id response s =
      (ok (record response { headers = set_header "X-Request-Id" id response.headers }), s)

  -- The default of `get` is computed first: each request draws an id.
  unfoldable pub request_id_middleware : Sources S → Request → Handler S → Handler S
  unfolding set_header
  request_id_middleware sources asked call_next = do
    fresh ← read sources.uuid4
    assigned ← assign_id (id_or asked.given_id fresh)
    response ← call_next
    tag (id_or asked.given_id fresh) response

  -- The middleware that is added last is called first.
  unfoldable pub serve : Sources S → ℕ → Request → Handler S → Handler S
  unfolding rate_limit_middleware structured_logging_middleware request_id_middleware
  serve sources now asked endpoint =
      rate_limit_middleware now
        (structured_logging_middleware sources asked (request_id_middleware sources asked endpoint))
