-- ===== src/Cli/Accepted.antt =====
-- Which URLs `_validated_api_url` of cli.py lets through, and what it makes of them.
use Prim.Native.Char.{Char, code}
use Prim.Native.String.{◌++◌}
use package.text.Mathlib.TextLemmas.{cons-append, nil-append}
use relayq.Prelude.{
  String, Bool, true, false, ◌&&◌, ◌≡◌, ◌⊎◌, inl, inr, refl, ◌∙◌, sym, ap, Option, none, some, ◌==◌,
  eq_iff, arith, Bool-cases,
}
use relayq.Effect.{ok}
use relayq.Cli.Url.{
  SplitUrl, truthy, is_http, has_extras, keep_or_strip, rstrip_slash, checked, checked_split,
  validated_api_url,
}

unfoldable pub ends_in_slash : String → Bool
ends_in_slash String.[] = false
ends_in_slash (String.◌∷◌ c String.[]) = code c == b'/'
ends_in_slash (String.◌∷◌ c (String.◌∷◌ d s)) = ends_in_slash (String.◌∷◌ d s)

unfoldable pub all_slashes : String → Bool
all_slashes String.[] = true
all_slashes (String.◌∷◌ c s) = code c == b'/' && all_slashes s

-- `rest` was stripped from `s`.
unfoldable pub Stripped : String → String → Type 0
Stripped s url =
    (ends_in_slash url ≡ false) × (rest : String) × (s ≡ url ++ rest) × (all_slashes rest ≡ true)

keep_or_strip-Stripped :
    (c : Char) (s url : String) → Stripped s url → Stripped (String.◌∷◌ c s) (keep_or_strip c url)
unfolding Stripped ends_in_slash all_slashes
keep_or_strip-Stripped c s String.[] (clean, rest, e, slashes) =
    elim (Bool-cases (code c == b'/')) [
      | inl h ↦ rw h (refl, String.◌∷◌ c s, sym (nil-append _), rw (h, e ∙ nil-append rest) slashes)
      | inr h ↦ rw h (h, rest, ap (String.◌∷◌ c) e ∙ sym (cons-append c String.[] rest), slashes)
    ]
keep_or_strip-Stripped c s (String.◌∷◌ d url) (clean, rest, e, slashes) =
    (clean, rest, ap (String.◌∷◌ c) e ∙ sym (cons-append c (String.◌∷◌ d url) rest), slashes)

rstrip_slash-Stripped : (s : String) → Stripped s (rstrip_slash s)
unfolding rstrip_slash Stripped ends_in_slash all_slashes
rstrip_slash-Stripped String.[] = (refl, "", sym (nil-append ""), refl)
rstrip_slash-Stripped (String.◌∷◌ c s) =
    keep_or_strip-Stripped c s (rstrip_slash s) (rstrip_slash-Stripped s)

checked-ok :
    (parsed : SplitUrl) (value url : String)
    → checked parsed value ≡ ok url
    → (is_http parsed ≡ true) × (has_extras parsed ≡ false) × (rstrip_slash value ≡ url)
checked-ok parsed value url h = ground arith

is_http_lem :
    (parsed : SplitUrl)
    → is_http parsed ≡ true
    → ((parsed.scheme ≡ "http") ⊎ (parsed.scheme ≡ "https")) × (truthy parsed.hostname ≡ true)
unfolding is_http
is_http_lem parsed h = ground (arith, eq_iff parsed.scheme "http", eq_iff parsed.scheme "https")

has_extras_lem :
    (parsed : SplitUrl)
    → has_extras parsed ≡ false
    → (truthy parsed.username ≡ false)
      × (truthy parsed.password ≡ false)
      × (parsed.query ≡ "")
      × (parsed.fragment ≡ "")
unfolding has_extras
has_extras_lem parsed h = ground (arith, eq_iff parsed.query "", eq_iff parsed.fragment "")

-- The `_validated_api_url` of a text that `urlsplit` reads as `parsed`.
pub record IsAccepted (found : Option SplitUrl) (value url : String) : Type 0 where
  pub parsed : SplitUrl
  pub is_split : found ≡ some parsed
  pub scheme : (parsed.scheme ≡ "http") ⊎ (parsed.scheme ≡ "https")
  pub hostname : truthy parsed.hostname ≡ true
  pub no_username : truthy parsed.username ≡ false
  pub no_password : truthy parsed.password ≡ false
  pub no_query : parsed.query ≡ ""
  pub no_fragment : parsed.fragment ≡ ""
  pub stripped : Stripped value url

checked_split-ok :
    (found : Option SplitUrl) (value url : String)
    → checked_split found value ≡ ok url
    → IsAccepted found value url
checked_split-ok none value url h = absurd (ground arith)
checked_split-ok (some parsed) value url h =
    let (http, bare, kept) = checked-ok parsed value url h in
    let (scheme, host) = is_http_lem parsed http in
    let (no_username, no_password, no_query, no_fragment) = has_extras_lem parsed bare in
    record {
      parsed = parsed;
      is_split = refl;
      scheme = scheme;
      hostname = host;
      no_username = no_username;
      no_password = no_password;
      no_query = no_query;
      no_fragment = no_fragment;
      stripped = rw (sym kept) (rstrip_slash-Stripped value);
    }

-- A URL that is accepted is one that `urlsplit` reads, of scheme `http` or `https`, with a hostname, and with
-- no credentials, query or fragment that is not empty; what is kept of it is its text without the slashes at
-- its end.
pub validated_api_url-ok :
    (urlsplit : String → Option SplitUrl) (value url : String)
    → validated_api_url urlsplit value ≡ ok url
    → IsAccepted (urlsplit value) value url
unfolding validated_api_url
validated_api_url-ok urlsplit value url h = checked_split-ok (urlsplit value) value url h
