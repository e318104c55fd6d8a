-- ===== src/Tests/Cli.antt =====
-- Tests of cli.py.
use relayq.Prelude.{
  String, ◌≡◌, refl, Bool, true, false, Option, none, some, List, [], ◌∷◌, str_eq, if◌then◌else◌,
}
use relayq.Effect.{ok, err, value_error}
use relayq.Domain.Json.{obj, str, field, end}
use relayq.Cli.Url.{SplitUrl, rstrip_slash, validated_api_url, is_http, has_extras}
use relayq.Cli.Api.{HttpRequest, HttpAnswer, answered, http_error, World, Library, answer, request}
use relayq.Cli.Command.{item, cmd_enqueue, status_path, dlq_path, replay_path}
use relayq.Cli.Main.{command_of, main}
use relayq.Cli.Accepted.{IsAccepted, validated_api_url-ok}
use relayq.Cli.Requests.{Requested, main_requests_once}
use relayq.Cli.Refusals.{Refuses, main_refused}
use relayq.Cli.Segments.{has_slash, split_slash, paths_keep_segments}

-- `urlsplit` of the default URL, and of one with credentials.
abbrev local_url : SplitUrl
local_url = record {
  scheme = "http";
  hostname = some "localhost";
  username = none;
  password = none;
  query = "";
  fragment = "";
}

abbrev split : String → Option SplitUrl
split t =
    if str_eq t "http://localhost:8000/"
    then some local_url
    else if str_eq t "http://u:p@h"
    then some (record local_url { username = some "u"; password = some "p" })
    else if str_eq t "file:///etc/passwd"
    then some (record local_url { scheme = "file"; hostname = none })
    else none

file_refused : validated_api_url split "file:///etc/passwd" ≡ err value_error
unfolding validated_api_url is_http
file_refused = refl

credentials_refused : validated_api_url split "http://u:p@h" ≡ err value_error
unfolding validated_api_url is_http has_extras
credentials_refused = refl

local_accepted : validated_api_url split "http://localhost:8000/" ≡ ok "http://localhost:8000"
unfolding validated_api_url is_http has_extras rstrip_slash
local_accepted = refl

validated_api_url-ok_example :
    IsAccepted (split "http://localhost:8000/") "http://localhost:8000/" "http://localhost:8000"
validated_api_url-ok_example =
    validated_api_url-ok split "http://localhost:8000/" "http://localhost:8000" local_accepted

-- An API that counts its requests, answers those with a body, and refuses the others.
abbrev reply : Option String → HttpAnswer
reply none = http_error 404 "{}"
reply (some body) = answered "{job}"

abbrev quoted : String → String
quoted t = if str_eq t "a/b" then "a%2Fb" else "job_1"

abbrev lib : Library (List HttpRequest)
lib = record {
  api_url = "http://localhost:8000";
  urlopen = λ sent s. (reply sent.body, sent ∷ s);
  quote = quoted;
  dumps = λ v. "{}";
  dumps_indented = λ v. "{}";
  loads = λ t.
      if str_eq t "{job}"
      then some (obj (field "job_id" (str "job_1") (field "stream_entry_id" (str "1-0") end)))
      else none;
  show_number = λ n. "404";
  show_value = λ v. elim v [ str s ↦ s | _ ↦ "?" ];
}

abbrev quiet : World (List HttpRequest)
quiet = record { api = []; out = []; errors = [] }

enqueue_prints :
    (main lib "doc" ("cli.py" ∷ "enqueue" ∷ "mail" ∷ "hello" ∷ []) quiet).1.out
    ≡ "Enqueued job job_1 (stream: 1-0)" ∷ []
unfolding main command_of cmd_enqueue request answer item
enqueue_prints = refl

main_requests_once_example :
    Requested lib [] (main lib "doc" ("cli.py" ∷ "enqueue" ∷ "mail" ∷ "hello" ∷ []) quiet).1.api
main_requests_once_example =
    main_requests_once lib "doc" ("cli.py" ∷ "enqueue" ∷ "mail" ∷ "hello" ∷ []) quiet

abbrev refusing : Library (List HttpRequest)
refusing = record lib { urlopen = λ sent s. (http_error 404 "{}", sent ∷ s) }

main_refused_example : Refuses (main refusing "doc" ("cli.py" ∷ "status" ∷ "job_9" ∷ [])) quiet
main_refused_example =
    main_refused refusing (λ sent s. (404, "{}", refl)) "doc" ("cli.py" ∷ "status" ∷ "job_9" ∷ [])
      quiet

quoted_lem : (b : Bool) → has_slash (if b then "a%2Fb" else "job_1") ≡ false
unfolding has_slash
quoted_lem true = refl
quoted_lem false = refl

paths_keep_segments_example :
    (split_slash (status_path lib "job_1") ≡ "" ∷ "jobs" ∷ lib.quote "job_1" ∷ [])
    × (split_slash (dlq_path lib "a/b") ≡ "" ∷ "queues" ∷ lib.quote "a/b" ∷ "dlq" ∷ [])
    × (split_slash (replay_path lib "a/b" "job_1")
        ≡ "" ∷ "queues" ∷ lib.quote "a/b" ∷ "dlq" ∷ lib.quote "job_1" ∷ "replay" ∷ [])
paths_keep_segments_example =
    paths_keep_segments lib "a/b" "job_1" (λ t. quoted_lem (str_eq t "a/b"))
