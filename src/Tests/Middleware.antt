-- ===== src/Tests/Middleware.antt =====
-- Tests of the middleware of api/main.py.
use relayq.Prelude.{
  ℕ, ◌+◌, ◌-◌, ◌*◌, ◌≤◌, String, ◌≡◌, ◌⊎◌, refl, true, none, some, List, [], ◌∷◌, length, arith,
}
use relayq.Effect.{ok}
use relayq.Api.RateLimit.{Bucket, TokenBucketRateLimiter, allow, refilled}
use relayq.Api.RateLimit.Refused.{refused_unseen}
use relayq.Api.Middleware.{Request, Process, Sources, Handler, too_many_requests, serve}
use relayq.Api.Middleware.Served.{
  serve_all, IsCounted, InOrder, HasLimiter, last_request, times, serve_all_bound,
}
use relayq.Api.Middleware.Tagged.{IsTagged, serve-IsTagged}

-- Endpoints that keep the paths that they have served.
abbrev endpoint : Request → Handler (List String)
endpoint asked s = (
  ok (record { content = "{}"; status_code = 200; headers = [] }),
  record s { rest = asked.path ∷ s.rest },
)

abbrev served : Process (List String) → ℕ
served s = length s.rest

endpoint-IsCounted : IsCounted endpoint served
endpoint-IsCounted = record {
  counts = λ asked s. omega arith;
  keeps_bucket = λ asked s. refl;
  keeps_limiter = λ asked s. refl;
  ignores_limiter = λ s bucket. refl;
}

-- The process before its first request.
abbrev fresh : Process (List String)
fresh = record {
  rate_limiter = none;
  has_redis = true;
  bucket = record { tokens = none; last_refill = none };
  request_id = none;
  log = [];
  rest = [];
}

abbrev asked : Request
asked = record { given_id = some "id-1"; method = "GET"; path = "/queues" }

serve_all_bound_example :
    served (serve_all endpoint ((11, asked) ∷ (12, asked) ∷ []) fresh)
    ≤ 150 + (last_request 11 ((12, asked) ∷ []) - 11) * 100 + 0
unfolding HasLimiter InOrder times
serve_all_bound_example =
    serve_all_bound endpoint served endpoint-IsCounted 11 asked ((12, asked) ∷ []) fresh refl refl
      (omega arith, tt)

abbrev sources : Sources (List String)
sources = record { utcnow = λ s. (0, s); uuid4 = λ s. ("uuid", s) }

serve-IsTagged_example :
    let r = (serve sources 11 asked (endpoint asked) fresh).0 in
    (r ≡ ok too_many_requests) ⊎ IsTagged asked r
serve-IsTagged_example = serve-IsTagged sources asked (endpoint asked) 11 fresh

abbrev slow : TokenBucketRateLimiter
slow = record { rate = 1; capacity = 4 }

-- A bucket of two tokens that refuses a call of five.
refused_unseen_example :
    let info : Bucket = record { tokens = some 2; last_refill = some 10 } in
    allow slow 3 14 (allow slow 5 11 info).1 ≡ allow slow 3 14 info
unfolding allow refilled
refused_unseen_example =
    refused_unseen slow (record { tokens = some 2; last_refill = some 10 }) 2 10 5 11 3 14 refl
      (omega arith) (omega arith) refl
