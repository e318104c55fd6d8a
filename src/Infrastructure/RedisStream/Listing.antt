-- ===== src/Infrastructure/RedisStream/Listing.antt =====
-- What `list_queues` of relayq/infrastructure/redis_stream.py returns.
use package.text.Mathlib.TextEquality.{path_by_compare}
use relayq.Prelude.{
  ℕ, zero, suc, ◌≤◌, String, Bool, false, ◌||◌, ◌≡◌, refl, Option, none, some, List, [], ◌∷◌,
  length, arith, str_eq,
}
use relayq.Effect.{ok, err}
use relayq.Infrastructure.Redis.{Wire}
use relayq.Infrastructure.RedisStream.{
  Transport, stream_key, queue_of_key, decode, insert_name, add_name, add_keys, scan_queues,
  list_queues,
}

-- A name is in a list.
unfoldable pub listed : String → List String → Bool
listed q [] = false
listed q (x ∷ xs) = str_eq x q || listed q xs

listed-insert_name :
    (q name : String) (xs : List String)
    → listed q (insert_name name xs) ≡ (str_eq name q || listed q xs)
unfolding listed insert_name
listed-insert_name q name [] = refl
listed-insert_name q name (x ∷ xs) =
    ground (arith, listed-insert_name q name xs, path_by_compare name x)

-- A key of a reply is that of the queue `q`.
abbrev is_name : String → Option String → Bool
is_name q none = false
is_name q (some name) = str_eq name q

abbrev is_key_of : String → Wire → Bool
is_key_of q key = elim (decode key) [ ok name ↦ is_name q (queue_of_key name) | err e ↦ false ]

abbrev pub page_has : String → List Wire → Bool
page_has q [] = false
page_has q (key ∷ keys) = is_key_of q key || page_has q keys

abbrev pub pages_have : String → List (List Wire) → Bool
pages_have q [] = false
pages_have q (page ∷ pages) = page_has q page || pages_have q pages

-- All keys of a page are texts or UTF-8.
abbrev pub Readable : List Wire → Type 0
Readable [] = Unit
Readable (key ∷ keys) = ((name : String) × (decode key ≡ ok name)) × Readable keys

abbrev pub AllReadable : List (List Wire) → Type 0
AllReadable [] = Unit
AllReadable (page ∷ pages) = Readable page × AllReadable pages

listed-add_name :
    (q : String) (name : Option String) (xs : List String)
    → listed q (add_name name xs) ≡ (is_name q name || listed q xs)
listed-add_name q none xs = refl
listed-add_name q (some name) xs = listed-insert_name q name xs

add_keys_lem :
    (keys : List Wire) (queues : List String)
    → Readable keys
    → (out : List String) × (add_keys keys queues ≡ ok out)
      × ((q : String) → listed q out ≡ (page_has q keys || listed q queues))
unfolding add_keys
add_keys_lem [] queues h = (queues, refl, λ q. refl)
add_keys_lem (key ∷ keys) queues ((name, e), h) =
    let (out, done, has) = add_keys_lem keys (add_name (queue_of_key name) queues) h in
    (out, rw e done, λ q. ground (arith, has q, listed-add_name q (queue_of_key name) queues))

module _ {R : Type 0} (self : Transport R) where
  -- The replies to SCAN from a cursor on, until the cursor is 0 again: their pages, and Redis after them.
  pub data Scans : ℕ → R → List (List Wire) → R → Type 0 where
    last :
        {cursor : ℕ} {s s' : R} {keys : List Wire}
        → self.redis.scan cursor (stream_key self.prefix "*") 100 s ≡ (ok (0, keys), s')
        → Scans cursor s (keys ∷ []) s'
    more :
        {cursor next : ℕ} {s s' after : R} {keys : List Wire} {pages : List (List Wire)}
        → self.redis.scan cursor (stream_key self.prefix "*") 100 s ≡ (ok (suc next, keys), s')
        → Scans (suc next) s' pages after
        → Scans cursor s (keys ∷ pages) after

  scan_queues_lem :
      {cursor : ℕ} {s after : R} {pages : List (List Wire)}
      → Scans cursor s pages after
      → (rounds : ℕ) (queues : List String) → AllReadable pages
      → length pages ≤ rounds
      → (out : List String) × (scan_queues self rounds cursor queues s ≡ (ok (some out), after))
        × ((q : String) → listed q out ≡ (pages_have q pages || listed q queues))
  unfolding scan_queues
  scan_queues_lem (last e) zero queues h enough = absurd (omega (arith, enough))
  scan_queues_lem (more e scans) zero queues h enough = absurd (omega (arith, enough))
  scan_queues_lem (last {keys} e) (suc rounds) queues h enough =
      let (found, done, has) = add_keys_lem keys queues h.0 in
      (found, rw (e, done), λ q. ground (arith, has q))
  scan_queues_lem (more {keys} e scans) (suc rounds) queues h enough =
      let (found, done, has) = add_keys_lem keys queues h.0 in
      let (out, rest, all) = scan_queues_lem scans rounds found h.1 (omega (arith, enough)) in
      (out, rw (e, done) rest, λ q. ground (arith, has q, all q))

  -- If SCAN comes back to the cursor 0 after some pages, whose keys can all be decoded, `list_queues` ends
  -- within as many rounds and returns the names in the keys of the pages: all of them, and no other.
  pub list_queues_lem :
      {s after : R} {pages : List (List Wire)} (rounds : ℕ)
      → Scans 0 s pages after
      → AllReadable pages
      → length pages ≤ rounds
      → (out : List String) × (list_queues self rounds s ≡ (ok (some out), after))
        × ((q : String) → listed q out ≡ pages_have q pages)
  unfolding list_queues listed
  list_queues_lem rounds scans h enough =
      let (out, done, all) = scan_queues_lem scans rounds [] h enough in
      (out, done, λ q. ground (arith, all q))
