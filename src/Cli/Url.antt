-- ===== src/Cli/Url.antt =====
-- `_validated_api_url` of cli.py.
use Prim.Native.Char.{Char, code}
use relayq.Prelude.{
  String, Bool, false, not, ◌&&◌, ◌||◌, Option, none, some, ◌==◌, str_eq, if◌then◌else◌,
}
use relayq.Effect.{Result, ok, err, value_error}

-- The attributes of the result of `urlsplit` that the program reads.
pub record SplitUrl : Type 0 where
  pub scheme : String
  pub hostname : Option String
  pub username : Option String
  pub password : Option String
  pub query : String
  pub fragment : String

-- `None` and the empty text are false.
abbrev pub truthy : Option String → Bool
truthy none = false
truthy (some s) = not (str_eq s "")

-- `parsed.scheme in {"http", "https"} and parsed.hostname`
unfoldable pub is_http : SplitUrl → Bool
is_http parsed =
    (str_eq parsed.scheme "http" || str_eq parsed.scheme "https") && truthy parsed.hostname

-- `parsed.username or parsed.password or parsed.query or parsed.fragment`
unfoldable pub has_extras : SplitUrl → Bool
has_extras parsed =
    truthy parsed.username
    || truthy parsed.password
    || truthy (some parsed.query)
    || truthy (some parsed.fragment)

-- A character before a stripped rest: a slash with nothing behind it goes too.
abbrev pub keep_or_strip : Char → String → String
keep_or_strip c String.[] = if code c == b'/' then String.[] else String.◌∷◌ c String.[]
keep_or_strip c (String.◌∷◌ d s) = String.◌∷◌ c (String.◌∷◌ d s)

-- `text.rstrip("/")`
unfoldable pub rstrip_slash : String → String
rstrip_slash String.[] = String.[]
rstrip_slash (String.◌∷◌ c s) = keep_or_strip c (rstrip_slash s)

abbrev pub checked : SplitUrl → String → Result String
checked parsed value =
    if not (is_http parsed)
    then err value_error
    else if has_extras parsed
    then err value_error
    else ok (rstrip_slash value)

abbrev pub checked_split : Option SplitUrl → String → Result String
checked_split none value = err value_error
checked_split (some parsed) value = checked parsed value

-- `urlsplit` raises a `ValueError` for some texts.
unfoldable pub validated_api_url : (String → Option SplitUrl) → String → Result String
unfolding is_http has_extras rstrip_slash
validated_api_url urlsplit value = checked_split (urlsplit value) value
