-- ===== src/Api/Middleware/Served.antt =====
-- How many requests the middleware of api/main.py lets through to the endpoints.
use relayq.Prelude.{
  ℕ, suc, ◌+◌, ◌-◌, ◌*◌, ◌≤◌, ◌≡◌, refl, ap, Bool, true, false, none, some, List, [], ◌∷◌, arith,
  if◌then◌else◌,
}
use relayq.Effect.{ok}
use relayq.Api.RateLimit.{Bucket, allow}
use relayq.Api.RateLimit.Bound.{granted_cost, granted_cost_fresh, Ascending, last_time}
use relayq.Api.Middleware.{
  Request, Process, Handler, too_many_requests, created, api_limiter, rate_limit_middleware,
}

unfoldable pub times : List (ℕ × Request) → List (ℕ × ℕ)
times [] = []
times ((now, asked) ∷ later) = (now, 1) ∷ times later

-- The times of the requests do not fall, from `t` on.
unfoldable pub InOrder : ℕ → List (ℕ × Request) → Type 0
unfolding times
InOrder t calls = Ascending t (times calls)

unfoldable pub last_request : ℕ → List (ℕ × Request) → ℕ
unfolding times
last_request t calls = last_time t (times calls)

-- The process has the limiter, or makes it at the next request.
unfoldable pub HasLimiter : {S : Type 0} → Process S → Type 0
HasLimiter s = created s.rate_limiter s.has_redis ≡ some api_limiter

module _ {S : Type 0} (call_next : Request → Handler S) where
  -- Requests one after the other, each with its time, where each is answered by `call_next` or with a 429.
  unfoldable pub serve_all : List (ℕ × Request) → Process S → Process S
  unfolding rate_limit_middleware
  serve_all [] s = s
  serve_all ((now, asked) ∷ later) s =
      serve_all later (rate_limit_middleware now (call_next asked) s).1

  -- What `call_next` does to the process: it leaves the limiter and its bucket alone, and `served`, a count
  -- of whatever kind, grows by one at most.
  pub record IsCounted (served : Process S → ℕ) : Type 0 where
    pub counts : (asked : Request) (s : Process S) → served (call_next asked s).1 ≤ suc (served s)
    pub keeps_bucket : (asked : Request) (s : Process S) → (call_next asked s).1.bucket ≡ s.bucket
    pub keeps_limiter :
        (asked : Request) (s : Process S) → (call_next asked s).1.rate_limiter ≡ s.rate_limiter
    pub ignores_limiter :
        (s : Process S) (bucket : Bucket)
        → served (record s { bucket = bucket; rate_limiter = some api_limiter }) ≡ served s

  module _ (served : Process S → ℕ) (laws : IsCounted served) where
    branch_lem :
        (asked : Request) (s : Process S) (granted : Bool) (after : Bucket)
        → let s0 = record s { bucket = after; rate_limiter = some api_limiter } in
          let s' = (if granted then call_next asked s0 else (ok too_many_requests, s0)).1 in
          (s'.rate_limiter ≡ some api_limiter)
          × (s'.bucket ≡ after)
          × (served s' ≤ (if granted then 1 else 0) + served s)
    branch_lem asked s true after =
        let s0 : Process S = record s { bucket = after; rate_limiter = some api_limiter } in
        let counted = laws.counts asked s0 in
        (
          laws.keeps_limiter asked s0,
          laws.keeps_bucket asked s0,
          omega (arith, counted, laws.ignores_limiter s after),
        )
    branch_lem asked s false after = (refl, refl, omega (arith, laws.ignores_limiter s after))

    -- One request, of which `call_next` sees what the bucket grants.
    step_lem :
        (now : ℕ) (asked : Request) (s : Process S)
        → HasLimiter s
        → let (granted, after) = allow api_limiter 1 now s.bucket in
          let s' = (rate_limit_middleware now (call_next asked) s).1 in
          (s'.rate_limiter ≡ some api_limiter)
          × (s'.bucket ≡ after)
          × (served s' ≤ (if granted then 1 else 0) + served s)
    unfolding HasLimiter rate_limit_middleware
    step_lem now asked s h =
        let (granted, after) = allow api_limiter 1 now s.bucket in
        rw h (branch_lem asked s granted after)

    serve_all-le :
        (calls : List (ℕ × Request)) (s : Process S)
        → HasLimiter s
        → served (serve_all calls s) ≤ granted_cost api_limiter (times calls) s.bucket + served s
    unfolding serve_all times HasLimiter granted_cost
    serve_all-le [] s h = omega arith
    serve_all-le ((now, asked) ∷ later) s h =
        let s' = (rate_limit_middleware now (call_next asked) s).1 in
        let (kept, bucket, counted) = step_lem now asked s h in
        let rest = serve_all-le later s' (ap (λ limiter. created limiter s'.has_redis) kept) in
        let rest' : served (serve_all later s')
            ≤ granted_cost api_limiter (times later) (allow api_limiter 1 now s.bucket).1
              + served s' =
          rw⁻¹ bucket rest in
        omega (arith, counted, rest')

    -- From a Redis that holds no bucket yet, whatever the requests, with times that do not fall, the
    -- endpoints serve at most 150 of them and 100 for each second from the first to the last, where
    -- `call_next` leaves the limiter and its bucket alone and serves one for each call at most
    -- (`IsCounted`); the limiter may be there, or is made at the first request.
    pub serve_all_bound :
        (now : ℕ) (asked : Request) (later : List (ℕ × Request)) (s : Process S)
        → HasLimiter s
        → s.bucket ≡ record { tokens = none; last_refill = none }
        → InOrder now later
        → served (serve_all ((now, asked) ∷ later) s)
          ≤ 150 + (last_request now later - now) * 100 + served s
    unfolding InOrder last_request times
    serve_all_bound now asked later s h fresh order =
        let most = serve_all-le ((now, asked) ∷ later) s h in
        let granted = granted_cost_fresh api_limiter now 1 (times later) order in
        let granted' : granted_cost api_limiter (times ((now, asked) ∷ later)) s.bucket
            ≤ 150 + (last_time now (times later) - now) * 100 =
          rw fresh granted in
        omega (arith, most, granted')
