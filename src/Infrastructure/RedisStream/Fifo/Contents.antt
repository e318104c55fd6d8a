-- ===== src/Infrastructure/RedisStream/Fifo/Contents.antt =====
-- The jobs that the entries of a stream hold, for relayq/infrastructure/redis_stream.py.
use mathlib.Core.List.{append-nil}
use relayq.Prelude.{ℕ, zero, suc, String, ◌≡◌, refl, some, List, [], ◌∷◌, ◌++◌, take, drop}
use relayq.Effect.{ok}
use relayq.Domain.Job.{Codec, DateTime, Job}
use relayq.Infrastructure.Redis.{text, Entry}
use relayq.Infrastructure.Redis.Log.{replied}
use relayq.Infrastructure.RedisStream.{decode_entry, decode_entries, decode_streams}

-- The entries of a stream hold these jobs, one each.
abbrev pub Holds : Codec → String → List Entry → List (String × String × Job) → Type 0
Holds codec stream [] [] = Unit
Holds codec stream (e ∷ es) (j ∷ js) =
    ((now : DateTime) → decode_entry codec now (text stream) e ≡ ok (some j))
    × Holds codec stream es js
Holds codec stream _ _ = ⊥

module _ (codec : Codec) (stream : String) where
  pub Holds-take :
      (n : ℕ) (es : List Entry) (js : List (String × String × Job))
      → Holds codec stream es js
      → Holds codec stream (take n es) (take n js) × Holds codec stream (drop n es) (drop n js)
  Holds-take zero es js h = (tt, h)
  Holds-take (suc n) [] [] h = (tt, tt)
  Holds-take (suc n) (e ∷ es) (j ∷ js) h =
      let rest = Holds-take n es js h.1 in ((h.0, rest.0), rest.1)
  Holds-take (suc n) [] (j ∷ js) h = absurd h
  Holds-take (suc n) (e ∷ es) [] h = absurd h

  pub Holds-append :
      (es : List Entry) (js : List (String × String × Job)) (e : Entry) (j : String × String × Job)
      → Holds codec stream es js
      → ((now : DateTime) → decode_entry codec now (text stream) e ≡ ok (some j))
      → Holds codec stream (es ++ e ∷ []) (js ++ j ∷ [])
  Holds-append [] [] e j h d = (d, tt)
  Holds-append (x ∷ es) (y ∷ js) e j h d = (h.0, Holds-append es js e j h.1 d)
  Holds-append [] (y ∷ js) e j h d = absurd h
  Holds-append (x ∷ es) [] e j h d = absurd h

  Holds-decode :
      (now : DateTime) (es : List Entry) (js : List (String × String × Job))
      → Holds codec stream es js
      → decode_entries codec now (text stream) es ≡ ok js
  unfolding decode_entries
  Holds-decode now [] [] h = refl
  Holds-decode now (e ∷ es) (j ∷ js) h = rw (h.0 now, Holds-decode now es js h.1)
  Holds-decode now [] (j ∷ js) h = absurd h
  Holds-decode now (e ∷ es) [] h = absurd h

  -- So does a reply of XREADGROUP.
  pub decode_streams-replied :
      (now : DateTime) (es : List Entry) (js : List (String × String × Job))
      → Holds codec stream es js
      → decode_streams codec now (replied stream es) ≡ ok js
  unfolding decode_streams
  decode_streams-replied now [] [] h = refl
  decode_streams-replied now (e ∷ es) (j ∷ js) h =
      rw (Holds-decode now (e ∷ es) (j ∷ js) h, append-nil)
  decode_streams-replied now [] (j ∷ js) h = absurd h
  decode_streams-replied now (e ∷ es) [] h = absurd h

  decode_same :
      (now : DateTime) (e : Entry) (a b : String × String × Job)
      → decode_entry codec now (text stream) e ≡ ok (some a)
      → decode_entry codec now (text stream) e ≡ ok (some b)
      → a ≡ b
  decode_same now e a b h k = cc

  -- The jobs of given entries are determined.
  pub Holds-unique :
      (now : DateTime) (es : List Entry) (js ks : List (String × String × Job))
      → Holds codec stream es js
      → Holds codec stream es ks
      → js ≡ ks
  Holds-unique now [] [] [] h k = refl
  Holds-unique now (e ∷ es) (j ∷ js) (l ∷ ks) h k =
      rw (decode_same now e j l (h.0 now) (k.0 now), Holds-unique now es js ks h.1 k.1)
  Holds-unique now [] (j ∷ js) ks h k = absurd h
  Holds-unique now [] [] (l ∷ ks) h k = absurd k
  Holds-unique now (e ∷ es) [] ks h k = absurd h
  Holds-unique now (e ∷ es) (j ∷ js) [] h k = absurd k
