-- ===== src/Cli/Main.antt =====
-- `main` of cli.py, and the script: the URL of the API is checked when the module is imported.
use Prim.Native.String.{◌++◌}
use relayq.Prelude.{String, Option, none, some, List, ◌∷◌, str_eq, if◌then◌else◌}
use relayq.Effect.{Result, ok, err}
use relayq.Cli.Api.{failed, Command, ◌>>◌, print_error, exit, Library}
use relayq.Cli.Command.{cmd_enqueue, cmd_status, cmd_queues, cmd_dlq, cmd_replay}
use relayq.Cli.Url.{SplitUrl, validated_api_url}

abbrev url_or_default : Option String → String
url_or_default none = "http://localhost:8000"
url_or_default (some url) = url

module _ {S : Type 0} where
  -- The dict of the commands.
  unfoldable pub command_of : Library S → String → Option (List String → Command S (Unit {0}))
  command_of lib command =
      if str_eq command "enqueue"
      then some (cmd_enqueue lib)
      else if str_eq command "status"
      then some (cmd_status lib)
      else if str_eq command "queues"
      then some (cmd_queues lib)
      else if str_eq command "dlq"
      then some (cmd_dlq lib)
      else if str_eq command "replay"
      then some (cmd_replay lib)
      else none

  -- `doc` is the module's docstring.
  abbrev pub dispatch :
      String
      → String
      → List String
      → Option (List String → Command S (Unit {0}))
      → Command S (Unit {0})
  dispatch doc command args none = do
    print_error ("Unknown command: " ++ command)
    print_error doc
    exit 1
  dispatch doc command args (some run) = run args

  unfoldable pub main : Library S → String → List String → Command S (Unit {0})
  unfolding command_of
  main lib doc (program ∷ command ∷ args) = dispatch doc command args (command_of lib command)
  main lib doc _ = do print_error doc; exit 1

  abbrev with_url : Library S → String → List String → Result String → Command S (Unit {0})
  with_url lib doc argv (ok url) = main (record lib { api_url = url }) doc argv
  with_url lib doc argv (err e) = λ w. (failed e, w)

  -- `python cli.py …`, with the value of RELAYQ_API_URL.
  unfoldable pub script :
      (String → Option SplitUrl)
      → Library S
      → String
      → Option String
      → List String
      → Command S (Unit {0})
  unfolding main validated_api_url
  script urlsplit lib doc url argv =
      with_url lib doc argv (validated_api_url urlsplit (url_or_default url))
