-- ===== src/Cli/Segments.antt =====
-- The paths that the commands of cli.py build, cut at the slashes: a quoted argument stays one segment.
use Prim.Native.Char.{Char, code}
use Prim.Native.String.{◌++◌}
use package.text.Mathlib.TextLemmas.{append_assoc, cons-append, nil-append}
use relayq.Prelude.{
  String, Bool, false, ◌≡◌, refl, sym, ◌∙◌, ap, List, [], ◌∷◌, ◌==◌, ◌||◌, if◌then◌else◌, arith,
}
use relayq.Cli.Api.{Library}
use relayq.Cli.Command.{status_path, dlq_path, replay_path}

-- A text without a slash.
unfoldable pub has_slash : String → Bool
has_slash String.[] = false
has_slash (String.◌∷◌ c s) = code c == b'/' || has_slash s

-- A character before the first of the pieces.
onto_first : Char → List String → List String
onto_first c [] = String.◌∷◌ c String.[] ∷ []
onto_first c (piece ∷ pieces) = String.◌∷◌ c piece ∷ pieces

-- The segments of a path.
unfoldable pub split_slash : String → List String
unfolding onto_first
split_slash String.[] = "" ∷ []
split_slash (String.◌∷◌ c s) =
    let rest = split_slash s in if code c == b'/' then "" ∷ rest else onto_first c rest

slash-append : (rest : String) → ("/" ++ rest) ≡ String.◌∷◌ "/" rest
slash-append rest = cons-append "/" String.[] rest ∙ ap (String.◌∷◌ "/") (nil-append rest)

split_slash-append :
    (piece rest : String)
    → has_slash piece ≡ false
    → split_slash (piece ++ ("/" ++ rest)) ≡ piece ∷ split_slash rest
unfolding split_slash has_slash onto_first
split_slash-append String.[] rest h = rw (nil-append ("/" ++ rest), slash-append rest)
split_slash-append (String.◌∷◌ c s) rest h =
    let (no_head, no_tail) = parts in
    rw (cons-append c s ("/" ++ rest), split_slash-append s rest no_tail, no_head) refl
  where
    parts : ((code c == b'/') ≡ false) × (has_slash s ≡ false)
    parts = ground arith

split_slash-piece : (piece : String) → has_slash piece ≡ false → split_slash piece ≡ piece ∷ []
unfolding split_slash has_slash onto_first
split_slash-piece String.[] h = refl
split_slash-piece (String.◌∷◌ c s) h =
    let (no_head, no_tail) = parts in rw (split_slash-piece s no_tail, no_head) refl
  where
    parts : ((code c == b'/') ≡ false) × (has_slash s ≡ false)
    parts = ground arith

-- A word between slashes.
word_append :
    (piece word rest : String)
    → has_slash piece ≡ false
    → has_slash word ≡ false
    → split_slash (piece ++ (("/" ++ (word ++ "/")) ++ rest)) ≡ piece ∷ word ∷ split_slash rest
word_append piece word rest p w =
    ap (λ text. split_slash (piece ++ text))
      (append_assoc "/" (word ++ "/") rest ∙ ap (λ text. "/" ++ text) (append_assoc word "/" rest))
    ∙ split_slash-append piece (word ++ ("/" ++ rest)) p
    ∙ ap (λ rest. piece ∷ rest) (split_slash-append word rest w)

front_append :
    (word rest : String)
    → has_slash word ≡ false
    → split_slash (("/" ++ (word ++ "/")) ++ rest) ≡ "" ∷ word ∷ split_slash rest
unfolding has_slash
front_append word rest w =
    ap split_slash (sym (nil-append (("/" ++ (word ++ "/")) ++ rest)))
    ∙ word_append "" word rest refl w

-- Where the quoted texts have no slash, as `quote` with no safe characters documents, the path of each
-- request has the segments of its route and no others, each argument as the one segment of its own.
pub paths_keep_segments :
    {S : Type 0} (lib : Library S) (queue job_id : String)
    → ((text : String) → has_slash (lib.quote text) ≡ false)
    → (split_slash (status_path lib job_id) ≡ "" ∷ "jobs" ∷ lib.quote job_id ∷ [])
      × (split_slash (dlq_path lib queue) ≡ "" ∷ "queues" ∷ lib.quote queue ∷ "dlq" ∷ [])
      × (split_slash (replay_path lib queue job_id)
          ≡ "" ∷ "queues" ∷ lib.quote queue ∷ "dlq" ∷ lib.quote job_id ∷ "replay" ∷ [])
unfolding split_slash has_slash onto_first
paths_keep_segments lib queue job_id h =
    let id_slash = h job_id in
    let queue_slash = h queue in
    (
      front_append "jobs" (lib.quote job_id) refl
          ∙ ap (λ rest. "" ∷ "jobs" ∷ rest) (split_slash-piece _ id_slash),
      front_append "queues" (lib.quote queue ++ "/dlq") refl
          ∙ ap (λ rest. "" ∷ "queues" ∷ rest)
              (split_slash-append (lib.quote queue) "dlq" queue_slash),
      front_append "queues" (lib.quote queue ++ ("/dlq/" ++ (lib.quote job_id ++ "/replay"))) refl
          ∙ ap (λ rest. "" ∷ "queues" ∷ rest)
              (word_append (lib.quote queue) "dlq" (lib.quote job_id ++ "/replay") queue_slash refl)
          ∙ ap (λ rest. "" ∷ "queues" ∷ lib.quote queue ∷ "dlq" ∷ rest)
              (split_slash-append (lib.quote job_id) "replay" id_slash),
    )
