-- ===== src/Infrastructure/RedisStream/Names.antt =====
-- The keys of relayq/infrastructure/redis_stream.py do not collide, and a stream key gives its queue back.
use Prim.Native.Char.{Char, code}
use Prim.Native.String.{◌++◌}
use package.text.Mathlib.TextLemmas.{
  append_cancel_left, append_cancel_right, cons-append, nil-append,
}
use relayq.Prelude.{
  ℕ, String, Bool, false, ◌≡◌, ◌≢◌, ◌⊎◌, inl, inr, refl, ◌∙◌, ap, some, ◌∷◌, ◌==◌, ◌||◌, arith,
}
use relayq.Infrastructure.RedisStream.Keys.{stream_key, dlq_key, split_colon, queue_of_key}

-- A text without a colon.
unfoldable pub has_colon : String → Bool
has_colon String.[] = false
has_colon (String.◌∷◌ c s) = code c == b':' || has_colon s

colon-append : (rest : String) → (":" ++ rest) ≡ String.◌∷◌ ":" rest
colon-append rest = cons-append ":" String.[] rest ∙ ap (String.◌∷◌ ":") (nil-append rest)

split_colon-append :
    (piece rest : String)
    → has_colon piece ≡ false
    → split_colon (piece ++ (":" ++ rest)) ≡ piece ∷ split_colon rest
unfolding split_colon has_colon
split_colon-append String.[] rest h = rw (nil-append (":" ++ rest), colon-append rest)
split_colon-append (String.◌∷◌ c s) rest h =
    let (no_head, no_tail) = parts in
    rw (cons-append c s (":" ++ rest), split_colon-append s rest no_tail, no_head) refl
  where
    parts : ((code c == b':') ≡ false) × (has_colon s ≡ false)
    parts = ground arith

-- For a queue and a prefix without a colon, `list_queues` reads the name of the queue from the key of
-- its stream.
pub queue_of_key-stream_key :
    (prefix queue : String)
    → has_colon prefix ≡ false
    → has_colon queue ≡ false
    → queue_of_key (stream_key prefix queue) ≡ some queue
unfolding queue_of_key stream_key
queue_of_key-stream_key prefix queue p q =
    rw (split_colon-append prefix (queue ++ ":stream") p) (rw (split_colon-append queue "stream" q))

-- The code of the last character, or `d` for the empty text.
last_or : ℕ → String → ℕ
last_or d String.[] = d
last_or d (String.◌∷◌ c s) = last_or (code c) s

last_or-append :
    (d : ℕ) (s : String) (c : Char) (t : String)
    → last_or d (s ++ String.◌∷◌ c t) ≡ last_or (code c) t
unfolding last_or
last_or-append d String.[] c t = rw (nil-append (String.◌∷◌ c t))
last_or-append d (String.◌∷◌ x s) c t =
    rw (cons-append x s (String.◌∷◌ c t), last_or-append (code x) s c t)

stream_ne_dlq : (a b : String) → (a ++ ":stream") ≢ (b ++ ":dlq")
unfolding last_or
stream_ne_dlq a b e =
    let m : last_or 0 (a ++ ":stream") ≡ b'm' = last_or-append 0 a ":" "stream" in
    let q : last_or 0 (b ++ ":dlq") ≡ b'q' = last_or-append 0 b ":" "dlq" in
    omega (arith, m, q, ap (last_or 0) e)

-- Two queues under one prefix with the same stream key, or the same DLQ key, are one queue.
keys_injective :
    (prefix a b : String)
    → (stream_key prefix a ≡ stream_key prefix b) ⊎ (dlq_key prefix a ≡ dlq_key prefix b)
    → a ≡ b
unfolding stream_key dlq_key
keys_injective prefix a b (inl e) =
    append_cancel_right a b ":stream" (append_cancel_left ":" _ _ (append_cancel_left prefix _ _ e))
keys_injective prefix a b (inr e) =
    append_cancel_right a b ":dlq" (append_cancel_left ":" _ _ (append_cancel_left prefix _ _ e))

-- No stream key is the DLQ key of any queue, whatever the names.
pub stream_key-ne-dlq_key : (prefix a b : String) → stream_key prefix a ≢ dlq_key prefix b
unfolding stream_key dlq_key
stream_key-ne-dlq_key prefix a b e =
    stream_ne_dlq a b (append_cancel_left ":" _ _ (append_cancel_left prefix _ _ e))
