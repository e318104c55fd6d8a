-- ===== src/Cli/Command.antt =====
-- The commands of cli.py, and `main`.
use Prim.Native.String.{◌++◌, count}
use relayq.Prelude.{ℕ, zero, suc, ◌-◌, String, Option, none, some, List, [], ◌∷◌}
use relayq.Effect.{Result, ok, err, key_error, type_error, attribute_error, untyped_field}
use relayq.Domain.Json.{Json, num, str, arr, obj, Items, nil, cons, Fields, end, field, get}
use relayq.Cli.Api.{done, Command, ◌>>=◌, ◌>>◌, print, print_error, exit, lift, Library, request}

-- `result[key]`, on a JSON value
abbrev item_or_key_error : String → Option Json → Result Json
item_or_key_error key none = err (key_error key)
item_or_key_error key (some v) = ok v

unfoldable pub item : String → Json → Result Json
unfolding get
item key (obj d) = item_or_key_error key (get key d)
item key _ = err type_error

abbrev default_to : Json → Option Json → Json
default_to default none = default
default_to default (some v) = v

-- `result.get(key, default)`
unfoldable pub get_or : String → Json → Json → Result Json
unfolding get
get_or key default (obj d) = ok (default_to default (get key d))
get_or key default _ = err attribute_error

-- The elements of a list; of another value RelayQ's API has none in these places.
unfoldable pub elements : String → Json → Result Items
elements key (arr items) = ok items
elements key _ = err (untyped_field key)

-- `n` spaces
unfoldable pub spaces : ℕ → String
spaces zero = ""
spaces (suc n) = " " ++ spaces n

-- `f"{name:20s}"`; RelayQ's API answers with a text here, and the model says nothing of another value.
unfoldable pub padded : ℕ → Json → Result String
unfolding spaces
padded width (str s) = ok (s ++ spaces (width - count s))
padded width _ = err (untyped_field "name")

module _ {S : Type 0} (lib : Library S) where
  open lib use {quote, dumps, dumps_indented, loads, show_number, show_value}

  -- `f"{n:>6d}"`; here with a number.
  unfoldable pub aligned : ℕ → Json → Result String
  unfolding spaces
  aligned width (num n) = ok (spaces (width - count (show_number n)) ++ show_number n)
  aligned width _ = err (untyped_field "depth")

  -- The paths of the requests.
  abbrev pub status_path : String → String
  status_path job_id = "/jobs/" ++ quote job_id

  abbrev pub dlq_path : String → String
  dlq_path queue = "/queues/" ++ (quote queue ++ "/dlq")

  abbrev pub replay_path : String → String → String
  replay_path queue job_id = "/queues/" ++ (quote queue ++ ("/dlq/" ++ (quote job_id ++ "/replay")))

  abbrev usage : String → Command S (Unit {0})
  usage line = do print_error line; exit 1

  -- `json.loads(args[1])`, or the text under `data` where it is no JSON
  abbrev pub payload_of : Option Json → String → Json
  payload_of none text = obj (field "data" (str text) end)
  payload_of (some v) text = v

  abbrev pub enqueue_body : String → String → Fields
  enqueue_body queue text =
      field "kind" (str "generic")
        (field "payload" (payload_of (loads text) text) (field "queue" (str queue) end))

  unfoldable pub cmd_enqueue : List String → Command S (Unit {0})
  unfolding item
  cmd_enqueue (queue ∷ text ∷ rest) = do
    result ← request lib "POST" "/jobs" (some (enqueue_body queue text))
    job_id ← lift (item "job_id" result)
    entry_id ← lift (item "stream_entry_id" result)
    print ("Enqueued job " ++ (show_value job_id ++ (" (stream: " ++ (show_value entry_id ++ ")"))))
  cmd_enqueue _ = usage "Usage: relayq enqueue <queue> <payload_json>"

  unfoldable pub cmd_status : List String → Command S (Unit {0})
  cmd_status (job_id ∷ rest) = do
    result ← request lib "GET" (status_path job_id) none
    print (dumps_indented result)
  cmd_status [] = usage "Usage: relayq status <job-id>"

  unfoldable pub print_queue : Json → Command S (Unit {0})
  unfolding item padded aligned
  print_queue q = do
    name ← lift (item "name" q)
    padded_name ← lift (padded 20 name)
    depth ← lift (item "depth" q)
    aligned_depth ← lift (aligned 6 depth)
    dead ← lift (item "dead_letter_count" q)
    aligned_dead ← lift (aligned 4 dead)
    print (padded_name ++ (" depth=" ++ (aligned_depth ++ ("  dlq=" ++ aligned_dead))))

  unfoldable pub for_each : (Json → Command S (Unit {0})) → Items → Command S (Unit {0})
  for_each body nil w = (done tt, w)
  for_each body (cons v rest) w = (do body v; for_each body rest) w

  unfoldable pub cmd_queues : List String → Command S (Unit {0})
  unfolding get_or elements for_each print_queue
  cmd_queues args = do
    result ← request lib "GET" "/queues" none
    queues ← lift (get_or "queues" (arr nil) result)
    items ← lift (elements "queues" queues)
    for_each print_queue items

  unfoldable pub print_entry : Json → Command S (Unit {0})
  unfolding get_or
  print_entry entry = do
    job ← lift (get_or "job" (obj end) entry)
    id ← lift (get_or "id" (str "?") job)
    kind ← lift (get_or "kind" (str "?") job)
    reason ← lift (get_or "reason" (str "?") entry)
    print ("  " ++ (show_value id ++ (": " ++ (show_value kind ++ (" — " ++ show_value reason)))))

  unfoldable pub print_entries : Json → Command S (Unit {0})
  unfolding get_or elements for_each print_entry
  print_entries result = do
    entries ← lift (get_or "entries" (arr nil) result)
    items ← lift (elements "entries" entries)
    for_each print_entry items

  unfoldable pub cmd_dlq : List String → Command S (Unit {0})
  unfolding get_or print_entries
  cmd_dlq (queue ∷ rest) = do
    result ← request lib "GET" (dlq_path queue) none
    total ← lift (get_or "count" (num 0) result)
    print ("DLQ for queue '" ++ (queue ++ ("' (" ++ (show_value total ++ " entries):"))))
    print_entries result
  cmd_dlq [] = usage "Usage: relayq dlq <queue>"

  unfoldable pub cmd_replay : List String → Command S (Unit {0})
  unfolding item
  cmd_replay (queue ∷ job_id ∷ rest) = do
    result ← request lib "POST" (replay_path queue job_id) none
    replayed ← lift (item "job_id" result)
    entry_id ← lift (item "new_stream_entry_id" result)
    print (
        "Replayed job "
        ++ (show_value replayed ++ (" (new stream entry: " ++ (show_value entry_id ++ ")"))))
  cmd_replay _ = usage "Usage: relayq replay <queue> <job-id>"
