-- ===== src/Cli/Refusals.antt =====
-- How a run of `main` of cli.py ends where the API answers with an HTTP error.
use Prim.Native.String.{◌++◌}
use relayq.Prelude.{ℕ, String, ◌≡◌, refl, Option, none, List, [], ◌∷◌, ◌<◌, arith, length}
use relayq.Domain.Json.{Json, Fields}
use relayq.Cli.Api.{
  HttpRequest, http_error, World, exited, Command, ◌>>=◌, ◌>>◌, print_error, exit, Library, encoded,
  answer, request,
}
use relayq.Cli.Command.{cmd_enqueue, cmd_status, cmd_queues, cmd_dlq, cmd_replay}
use relayq.Cli.Main.{dispatch, main}
use relayq.Cli.Requests.{command_of_lem}

-- The command ends with status 1, having printed something to the error output, and nothing to the other.
unfoldable pub Refuses : {S : Type 0} → Command S (Unit {0}) → World S → Type 0
Refuses m w =
    ((m w).0 ≡ exited 1) × ((m w).1.out ≡ w.out) × (length w.errors < length (m w).1.errors)

module _ {S : Type 0} (lib : Library S)
    (refuses : (sent : HttpRequest) (s : S)
      → (code : ℕ) × (body : String) × ((lib.urlopen sent s).0 ≡ http_error code body)) where
  request-Refuses :
      (method path : String) (body : Option Fields) (f : Json → Command S (Unit {0})) (w : World S)
      → Refuses (request lib method path body >>= f) w
  unfolding Refuses request answer
  request-Refuses method path body f w =
      let sent : HttpRequest = record {
        method = method;
        url = lib.api_url ++ path;
        body = encoded lib body;
      } in
      let (code, text, e) = refuses sent w.api in rw e (refl, refl, omega arith)

  usage-Refuses : (line : String) (w : World S) → Refuses (print_error line >> exit 1) w
  unfolding Refuses
  usage-Refuses line w = (refl, refl, omega arith)

  cmd_enqueue-Refuses : (args : List String) (w : World S) → Refuses (cmd_enqueue lib args) w
  unfolding cmd_enqueue
  cmd_enqueue-Refuses (queue ∷ text ∷ rest) w = request-Refuses "POST" "/jobs" _ _ w
  cmd_enqueue-Refuses (queue ∷ []) w = usage-Refuses _ w
  cmd_enqueue-Refuses [] w = usage-Refuses _ w

  cmd_status-Refuses : (args : List String) (w : World S) → Refuses (cmd_status lib args) w
  unfolding cmd_status
  cmd_status-Refuses (job_id ∷ rest) w = request-Refuses "GET" _ none _ w
  cmd_status-Refuses [] w = usage-Refuses _ w

  cmd_queues-Refuses : (args : List String) (w : World S) → Refuses (cmd_queues lib args) w
  unfolding cmd_queues
  cmd_queues-Refuses args w = request-Refuses "GET" "/queues" none _ w

  cmd_dlq-Refuses : (args : List String) (w : World S) → Refuses (cmd_dlq lib args) w
  unfolding cmd_dlq
  cmd_dlq-Refuses (queue ∷ rest) w = request-Refuses "GET" _ none _ w
  cmd_dlq-Refuses [] w = usage-Refuses _ w

  cmd_replay-Refuses : (args : List String) (w : World S) → Refuses (cmd_replay lib args) w
  unfolding cmd_replay
  cmd_replay-Refuses (queue ∷ job_id ∷ rest) w = request-Refuses "POST" _ none _ w
  cmd_replay-Refuses (queue ∷ []) w = usage-Refuses _ w
  cmd_replay-Refuses [] w = usage-Refuses _ w

  -- Where the API answers every request with an HTTP error, every run of the program, whatever its command
  -- and arguments, ends with status 1, prints nothing to its output, and prints something to its error
  -- output.
  pub main_refused :
      (doc : String) (argv : List String) (w : World S) → Refuses (main lib doc argv) w
  unfolding main Refuses
  main_refused doc (program ∷ command ∷ args) w =
      command_of_lem lib (λ found. Refuses (dispatch doc command args found) w) command
        (cmd_enqueue-Refuses args w) (cmd_status-Refuses args w) (cmd_queues-Refuses args w)
        (cmd_dlq-Refuses args w) (cmd_replay-Refuses args w) (refl, refl, omega arith)
  main_refused doc (program ∷ []) w = usage-Refuses doc w
  main_refused doc [] w = usage-Refuses doc w
