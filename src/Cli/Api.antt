-- ===== src/Cli/Api.antt =====
-- What a run of cli.py has to do with: the API that answers its requests, and its output; and `_request`.
use Prim.Native.String.{◌++◌}
use relayq.Prelude.{ℕ, String, Option, none, some, List, ◌∷◌}
use relayq.Effect.{Exception, Result, ok, err, json_decode_error}
use relayq.Domain.Json.{Json, Fields, obj, str, end, field}

pub record HttpRequest : Type 0 where
  pub method : String
  pub url : String
  pub body : Option String

-- `urlopen` returns with the body of the answer, or raises an `HTTPError` with its code and body, or another
-- exception.
pub data HttpAnswer : Type 0 where
  answered : String → HttpAnswer
  http_error : ℕ → String → HttpAnswer
  unreachable : Exception → HttpAnswer

-- The lines written to the two outputs, last first, and the state of the API behind `urlopen`.
pub record World (S : Type 0) : Type 0 where
  pub api : S
  pub out : List String
  pub errors : List String

-- How a command ends: with a value, by `sys.exit`, or by an exception.
pub data Exit (A : Type 0) : Type 0 where
  done : A → Exit A
  exited : ℕ → Exit A
  failed : Exception → Exit A

abbrev pub Command : Type 0 → Type 0 → Type 0
Command S A = World S → Exit A × World S

abbrev pub after : {S A B : Type 0} → Exit A → (A → Command S B) → Command S B
after (done a) f w = f a w
after (exited code) f w = (exited code, w)
after (failed e) f w = (failed e, w)

infixl 5 ◌>>=◌ ◌>>◌
abbrev pub ◌>>=◌ : {S A B : Type 0} → Command S A → (A → Command S B) → Command S B
◌>>=◌ m f w = let (r, w') = m w in after r f w'

abbrev pub ◌>>◌ : {S A B : Type 0} → Command S A → Command S B → Command S B
m >> n = m >>= λ _. n

abbrev pub print : {S : Type 0} → String → Command S (Unit {0})
print line w = (done tt, record w { out = line ∷ w.out })

abbrev pub print_error : {S : Type 0} → String → Command S (Unit {0})
print_error line w = (done tt, record w { errors = line ∷ w.errors })

abbrev pub exit : {S A : Type 0} → ℕ → Command S A
exit code w = (exited code, w)

abbrev pub lift : {S A : Type 0} → Result A → Command S A
lift (ok a) w = (done a, w)
lift (err e) w = (failed e, w)

-- What the program uses of Python's library, and the API: `urlopen`, `quote(text, safe="")`, `json`, the text
-- of a number, and that of a value in an f-string.
pub record Library (S : Type 0) : Type 0 where
  pub api_url : String
  pub urlopen : HttpRequest → S → HttpAnswer × S
  pub quote : String → String
  pub dumps : Json → String
  pub dumps_indented : Json → String
  pub loads : String → Option Json
  pub show_number : ℕ → String
  pub show_value : Json → String

module _ {S : Type 0} (lib : Library S) where
  open lib use {api_url, urlopen, dumps, loads, show_number, show_value}

  -- `json.dumps(body).encode() if body else None`: no body and the empty dict are false.
  abbrev pub encoded : Option Fields → Option String
  encoded none = none
  encoded (some end) = none
  encoded (some (field k v rest)) = some (dumps (obj (field k v rest)))

  abbrev pub parsed : Option Json → Command S Json
  parsed none = lift (err json_decode_error)
  parsed (some v) = lift (ok v)

  -- `json.loads(body)`, or the body where it is no JSON
  abbrev detail : Option Json → String → Json
  detail none body = str body
  detail (some v) body = v

  unfoldable pub answer : HttpAnswer → Command S Json
  answer (answered body) = parsed (loads body)
  answer (http_error code body) = do
    print_error ("Error " ++ (show_number code ++ (": " ++ show_value (detail (loads body) body))))
    exit 1
  answer (unreachable e) = lift (err e)

  unfoldable pub request : String → String → Option Fields → Command S Json
  unfolding answer
  request method path body w =
      let (a, api') =
        urlopen (record { method = method; url = api_url ++ path; body = encoded body }) w.api in
      answer a (record w { api = api' })
