-- ===== src/Cli/Requests.antt =====
-- What a run of `main` of cli.py asks of the API, and how it ends where the API refuses.
use Prim.Native.String.{◌++◌}
use package.text.Mathlib.TextLemmas.{append_assoc}
use relayq.Prelude.{
  String, ◌≡◌, ◌⊎◌, inl, inr, refl, ◌∙◌, ap, Bool, true, false, Option, none, some, List, [], ◌∷◌,
  str_eq, if◌then◌else◌,
}
use relayq.Effect.{Result, ok, err}
use relayq.Domain.Json.{Json, Items, nil, cons, Fields, obj, end, arr, num, str}
use relayq.Cli.Api.{
  HttpRequest, HttpAnswer, answered, http_error, unreachable, World, Exit, done, exited, failed,
  Command, after, ◌>>=◌, ◌>>◌, print, lift, Library, encoded, parsed, answer, request,
}
use relayq.Cli.Command.{
  item, get_or, elements, padded, aligned, print_queue, for_each, print_entry, print_entries,
  cmd_enqueue, cmd_status, cmd_queues, cmd_dlq, cmd_replay,
}
use relayq.Cli.Main.{command_of, dispatch, main}

-- A command that leaves the API alone.
Keeps : {S A : Type 0} → Command S A → Type 0
Keeps m = (w : _) → (m w).1.api ≡ w.api

after-Keeps :
    {S A B : Type 0} (r : Exit A) (f : A → Command S B)
    → ((a : A) → Keeps (f a))
    → Keeps (after r f)
unfolding Keeps
after-Keeps (done a) f h w = h a w
after-Keeps (exited code) f h w = refl
after-Keeps (failed e) f h w = refl

bind-Keeps :
    {S A B : Type 0} (m : Command S A) (f : A → Command S B)
    → Keeps m
    → ((a : A) → Keeps (f a))
    → Keeps (m >>= f)
unfolding Keeps
bind-Keeps m f k h w = after-Keeps (m w).0 f h (m w).1 ∙ k w

lift_then :
    {S A B : Type 0} (r : Result A) (f : A → Command S B)
    → ((a : A) → Keeps (f a))
    → Keeps (lift r >>= f)
unfolding Keeps
lift_then (ok a) f h w = h a w
lift_then (err e) f h w = refl

print_then : {S B : Type 0} (line : String) (m : Command S B) → Keeps m → Keeps (print line >> m)
unfolding Keeps
print_then line m h w = h _

module _ {S : Type 0} (lib : Library S) where
  -- At most one request reached the API, to its URL with a slash and a path behind it.
  unfoldable pub Requested : S → S → Type 0
  Requested before after =
      (after ≡ before)
      ⊎ ((method path : String) × (body : Option Fields) × (after
            ≡ (lib.urlopen
                (record {
                  method = method;
                  url = lib.api_url ++ ("/" ++ path);
                  body = encoded lib body;
                })
                before).1))

  answer-Keeps : (a : HttpAnswer) → Keeps (answer lib a)
  unfolding Keeps answer
  answer-Keeps (answered body) w = elim (lib.loads body) as (λ v. (parsed lib v w).1.api ≡ w.api) [
    | none ↦ refl
    | some v ↦ refl
  ]
  answer-Keeps (http_error code body) w = refl
  answer-Keeps (unreachable e) w = refl

  request-Requested :
      {B : Type 0} (method path rest : String) (body : Option Fields) (f : Json → Command S B)
      (w : World S)
      → path ≡ ("/" ++ rest)
      → ((result : Json) → Keeps (f result))
      → Requested w.api ((request lib method path body >>= f) w).1.api
  unfolding request Requested Keeps
  request-Requested method path rest body f w e h =
      let sent : String → HttpRequest =
        λ p. record { method = method; url = lib.api_url ++ p; body = encoded lib body } in
      inr (
        method,
        rest,
        body,
        bind-Keeps (answer lib _) f (answer-Keeps _) h _
            ∙ ap (λ p. (lib.urlopen (sent p) w.api).1) e,
      )

  print_queue-Keeps : (q : Json) → Keeps (print_queue lib q)
  unfolding print_queue Keeps
  print_queue-Keeps q = lift_then (item "name" q) _ λ name.
      lift_then (padded 20 name) _ λ padded_name. lift_then (item "depth" q) _ λ depth.
        lift_then (aligned lib 6 depth) _ λ aligned_depth.
          lift_then (item "dead_letter_count" q) _
            λ dead. lift_then (aligned lib 4 dead) _ λ aligned_dead w. refl

  print_entry-Keeps : (entry : Json) → Keeps (print_entry lib entry)
  unfolding print_entry Keeps
  print_entry-Keeps entry = lift_then (get_or "job" (obj end) entry) _ λ job.
      lift_then (get_or "id" (str "?") job) _ λ id.
        lift_then (get_or "kind" (str "?") job) _
          λ kind. lift_then (get_or "reason" (str "?") entry) _ λ reason w. refl

  for_each-Keeps :
      (body : Json → Command S (Unit {0})) (items : Items)
      → ((v : Json) → Keeps (body v))
      → Keeps (for_each lib body items)
  unfolding for_each Keeps
  for_each-Keeps body nil h w = refl
  for_each-Keeps body (cons v rest) h w =
      bind-Keeps (body v) _ (h v) (λ _. for_each-Keeps body rest h) w

  cmd_enqueue-Requested :
      (args : List String) (w : World S) → Requested w.api (cmd_enqueue lib args w).1.api
  unfolding cmd_enqueue Requested Keeps
  cmd_enqueue-Requested (queue ∷ text ∷ rest) w =
      request-Requested "POST" "/jobs" "jobs" _ _ w refl λ result.
        lift_then (item "job_id" result) _
          λ job_id. lift_then (item "stream_entry_id" result) _ λ entry_id w'. refl
  cmd_enqueue-Requested (queue ∷ []) w = inl refl
  cmd_enqueue-Requested [] w = inl refl

  cmd_status-Requested :
      (args : List String) (w : World S) → Requested w.api (cmd_status lib args w).1.api
  unfolding cmd_status Requested Keeps
  cmd_status-Requested (job_id ∷ rest) w =
      request-Requested "GET" _ _ none _ w (append_assoc "/" "jobs/" _) λ result w'. refl
  cmd_status-Requested [] w = inl refl

  cmd_queues-Requested :
      (args : List String) (w : World S) → Requested w.api (cmd_queues lib args w).1.api
  unfolding cmd_queues
  cmd_queues-Requested args w = request-Requested "GET" "/queues" "queues" none _ w refl λ result.
      lift_then (get_or "queues" (arr nil) result) _ λ queues.
        lift_then (elements "queues" queues) _
          λ items. for_each-Keeps (print_queue lib) items print_queue-Keeps

  print_entries-Keeps : (result : Json) → Keeps (print_entries lib result)
  unfolding print_entries
  print_entries-Keeps result = lift_then (get_or "entries" (arr nil) result) _ λ entries.
      lift_then (elements "entries" entries) _
        λ items. for_each-Keeps (print_entry lib) items print_entry-Keeps

  cmd_dlq-Requested :
      (args : List String) (w : World S) → Requested w.api (cmd_dlq lib args w).1.api
  unfolding cmd_dlq Requested Keeps
  cmd_dlq-Requested (queue ∷ rest) w =
      request-Requested "GET" _ _ none _ w (append_assoc "/" "queues/" _) λ result.
        lift_then (get_or "count" (num 0) result) _
          λ total. print_then _ (print_entries lib result) (print_entries-Keeps result)
  cmd_dlq-Requested [] w = inl refl

  cmd_replay-Requested :
      (args : List String) (w : World S) → Requested w.api (cmd_replay lib args w).1.api
  unfolding cmd_replay Requested Keeps
  cmd_replay-Requested (queue ∷ job_id ∷ rest) w =
      request-Requested "POST" _ _ none _ w (append_assoc "/" "queues/" _) λ result.
        lift_then (item "job_id" result) _
          λ replayed. lift_then (item "new_stream_entry_id" result) _ λ entry_id w'. refl
  cmd_replay-Requested (queue ∷ []) w = inl refl
  cmd_replay-Requested [] w = inl refl

  choose_lem :
      (holds : Option (List String → Command S (Unit {0})) → Type 0) (b : Bool)
      (run : List String → Command S (Unit {0}))
      (rest : Option (List String → Command S (Unit {0})))
      → holds (some run)
      → holds rest
      → holds (if b then some run else rest)
  choose_lem holds true run rest h k = h
  choose_lem holds false run rest h k = k

  -- What holds of every command, and where there is none, holds of what is looked up.
  pub command_of_lem :
      (holds : Option (List String → Command S (Unit {0})) → Type 0) (command : String)
      → holds (some (cmd_enqueue lib))
      → holds (some (cmd_status lib))
      → holds (some (cmd_queues lib))
      → holds (some (cmd_dlq lib))
      → holds (some (cmd_replay lib))
      → holds none
      → holds (command_of lib command)
  unfolding command_of
  command_of_lem holds command a b c d e f =
      choose_lem holds (str_eq command "enqueue") (cmd_enqueue lib) _ a (
        choose_lem holds (str_eq command "status") (cmd_status lib) _ b (
          choose_lem holds (str_eq command "queues") (cmd_queues lib) _ c (
            choose_lem holds (str_eq command "dlq") (cmd_dlq lib) _ d
              (choose_lem holds (str_eq command "replay") (cmd_replay lib) none e f))))

  -- A run of `main` reaches the API with one request at most, whose URL is the one of the library with a
  -- slash and a path behind it (so that no command changes the host), whatever the command, its arguments
  -- and the answer.
  pub main_requests_once :
      (doc : String) (argv : List String) (w : World S)
      → Requested w.api (main lib doc argv w).1.api
  unfolding main Requested
  main_requests_once doc (program ∷ command ∷ args) w =
      command_of_lem (λ found. Requested w.api (dispatch doc command args found w).1.api) command
        (cmd_enqueue-Requested args w) (cmd_status-Requested args w) (cmd_queues-Requested args w)
        (cmd_dlq-Requested args w) (cmd_replay-Requested args w) (inl refl)
  main_requests_once doc (program ∷ []) w = inl refl
  main_requests_once doc [] w = inl refl
