-- ===== src/Api/RateLimit/Refused.antt =====
-- Calls that the token bucket of api/main.py refuses.
use relayq.Prelude.{ℕ, ◌≤◌, ◌≡◌, refl, false, some, arith}
use relayq.Api.RateLimit.{Bucket, TokenBucketRateLimiter, refilled, allow}
use relayq.Api.RateLimit.Bound.{span_add}

refilled_twice :
    (self : TokenBucketRateLimiter) (n t now later : ℕ)
    → t ≤ now
    → now ≤ later
    → let info : Bucket = record { tokens = some n; last_refill = some t } in
      let refused : Bucket = record {
        tokens = some (refilled self now info);
        last_refill = some now;
      } in
      refilled self later refused ≡ refilled self later info
unfolding refilled
refilled_twice self n t now later h k = omega (arith, span_add self.rate t now later h k)

-- What a call does depends on the refilled tokens only.
allow_same :
    (self : TokenBucketRateLimiter) (cost now : ℕ) (a b : Bucket)
    → refilled self now a ≡ refilled self now b
    → allow self cost now a ≡ allow self cost now b
unfolding allow
allow_same self cost now a b same = rw same refl

refused-after :
    (self : TokenBucketRateLimiter) (cost now : ℕ) (info : Bucket)
    → (allow self cost now info).0 ≡ false
    → (allow self cost now info).1
      ≡ record { tokens = some (refilled self now info); last_refill = some now }
unfolding allow
refused-after self cost now info h = ground arith

-- A refused call is not seen by later ones: from then on, a call is answered, and leaves the bucket, as it
-- would if the refused one had not been made; the bucket has its tokens and a time, and the times of the
-- three calls do not fall.
pub refused_unseen :
    (self : TokenBucketRateLimiter) (info : Bucket) (n t cost now again later : ℕ)
    → info ≡ record { tokens = some n; last_refill = some t }
    → t ≤ now
    → now ≤ later
    → (allow self cost now info).0 ≡ false
    → allow self again later (allow self cost now info).1 ≡ allow self again later info
refused_unseen self info n t cost now again later e h k refused =
    rw (refused-after self cost now info refused, e)
      (allow_same self again later _ _ (refilled_twice self n t now later h k))
