-- ===== src/Api/RateLimit/Bound.antt =====
-- How many requests the token bucket of api/main.py lets through.
use relayq.Prelude.{
  ℕ, ◌+◌, ◌-◌, ◌*◌, ◌≤◌, ◌≡◌, refl, ap, inl, inr, none, some, List, Bool-cases, [], ◌∷◌, leb, arith,
  if◌then◌else◌,
}
use relayq.Api.RateLimit.{Bucket, TokenBucketRateLimiter, number_or, refilled, allow}

-- A call leaves the bucket with no more than its capacity and with the call's time, and neither loses
-- tokens nor makes any: those left and those granted are the refilled ones.
allow_bounds :
    (self : TokenBucketRateLimiter) (cost now : ℕ) (info : Bucket)
    → let (granted, after) = allow self cost now info in
      (number_or after.tokens self.capacity ≤ self.capacity)
      × (after.last_refill ≡ some now)
      × (number_or after.tokens 0 + (if granted then cost else 0) ≡ refilled self now info)
unfolding allow
allow_bounds self cost now info = ground arith

-- The cost of the granted calls of a history, each call with its time and its cost.
unfoldable pub granted_cost : TokenBucketRateLimiter → List (ℕ × ℕ) → Bucket → ℕ
granted_cost self [] info = 0
granted_cost self ((now, cost) ∷ calls) info =
    let (granted, after) = allow self cost now info in
    (if granted then cost else 0) + granted_cost self calls after

-- The times of the calls do not fall, from `t` on.
abbrev pub Ascending : ℕ → List (ℕ × ℕ) → Type 0
Ascending t [] = Unit
Ascending t ((now, cost) ∷ calls) = (t ≤ now) × Ascending now calls

abbrev pub last_time : ℕ → List (ℕ × ℕ) → ℕ
last_time t [] = t
last_time t ((now, cost) ∷ calls) = last_time now calls

last_time-le : (t : ℕ) (calls : List (ℕ × ℕ)) → Ascending t calls → t ≤ last_time t calls
last_time-le t [] h = omega arith
last_time-le t ((now, cost) ∷ calls) h = omega (arith, last_time-le now calls h.1)

refilled-le :
    (self : TokenBucketRateLimiter) (n t now : ℕ) (info : Bucket)
    → info.tokens ≡ some n
    → info.last_refill ≡ some t
    → refilled self now info ≤ n + (now - t) * self.rate
unfolding refilled
refilled-le self n t now info e f = ground arith

-- One call leaves `m` tokens, and `m` with what it granted is covered by the refill.
allow_step :
    (self : TokenBucketRateLimiter) (n t now cost : ℕ)
    → let (granted, after) =
        allow self cost now (record { tokens = some n; last_refill = some t }) in
      (m : ℕ) × (after ≡ record { tokens = some m; last_refill = some now })
      × (m + (if granted then cost else 0) ≤ n + (now - t) * self.rate)
unfolding allow
allow_step self n t now cost =
    let info : Bucket = record { tokens = some n; last_refill = some t } in
    let covered = refilled-le self n t now info refl refl in
    elim (Bool-cases (leb cost (refilled self now info))) [
      | inl enough ↦ (refilled self now info - cost, ground arith, ground arith)
      | inr short ↦ (refilled self now info, ground arith, ground arith)
    ]

pub span_add :
    (r t now last : ℕ) → t ≤ now → now ≤ last → (now - t) * r + (last - now) * r ≡ (last - t) * r
span_add r t now last h k =
    let sum : now - t + (last - now) ≡ last - t = omega arith in
    omega (arith, ap (λ (x : ℕ). x * r) sum)

-- From a bucket of `n` tokens at the time `t`, whatever is asked for by calls whose times do not fall,
-- no more is granted than `n` and `rate` for each second until the last call.
granted_cost-le :
    (self : TokenBucketRateLimiter) (n t : ℕ) (calls : List (ℕ × ℕ))
    → Ascending t calls
    → granted_cost self calls (record { tokens = some n; last_refill = some t })
      ≤ n + (last_time t calls - t) * self.rate
unfolding granted_cost
granted_cost-le self n t [] h = omega arith
granted_cost-le self n t ((now, cost) ∷ calls) h =
    let (m, after, covered) = allow_step self n t now cost in
    let rest = granted_cost-le self m now calls h.1 in
    rw after (
      omega (
        arith,
        covered,
        rest,
        span_add self.rate t now (last_time now calls) h.0 (last_time-le now calls h.1),
      ))

-- A bucket that Redis does not hold yet starts full: for calls whose times do not fall, a fresh
-- limiter grants at most its capacity and `rate` for each second from the first call to the last.
pub granted_cost_fresh :
    (self : TokenBucketRateLimiter) (now cost : ℕ) (calls : List (ℕ × ℕ))
    → Ascending now calls
    → granted_cost self ((now, cost) ∷ calls) (record { tokens = none; last_refill = none })
      ≤ self.capacity + (last_time now calls - now) * self.rate
unfolding granted_cost allow
granted_cost_fresh self now cost calls h =
    granted_cost-le self self.capacity now ((now, cost) ∷ calls) (omega arith, h)
