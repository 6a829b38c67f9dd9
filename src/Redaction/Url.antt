-- ===== src/Redaction/Url.antt =====
-- `redact_url` of server/redaction.py and its helpers.
pub mod Laws
pub mod Whole
use browser.Prelude.{
  String, Bool, true, false, not, ◌&&◌, ◌||◌, Option, none, some, List, [], ◌∷◌, leb, ◌==◌,
  if◌then◌else◌, one_of,
}
use browser.Text.{strip, lower, contains, split_once, count_char}
use browser.Sensitivity.{is_sensitive_key}
use browser.Placeholder.{is_placeholder}
use browser.Url.{UrlLib, SplitUrl}

abbrev sensitive_keys : List String
sensitive_keys =
    "secret" ∷ "password" ∷ "pass" ∷ "pwd" ∷ "token" ∷ "auth" ∷ "authorization" ∷ "cookie"
    ∷ "set-cookie" ∷ "api-key" ∷ "x-api-key" ∷ "x-auth-token" ∷ []

-- lk in _SENSITIVE_KEYS
unfoldable pub is_sensitive_name : String → Bool
is_sensitive_name lk = one_of lk sensitive_keys

unfoldable pub should_redact_url_key : String → Bool
should_redact_url_key key =
    let lk = lower (strip key) in
    if lk == "" then false else if is_sensitive_name lk then true else is_sensitive_key lk

unfoldable pub looks_like_query_string : String → Bool
looks_like_query_string value =
    if value == ""
    then false
    else contains value "=" && (contains value "&" || leb 1 (count_char b'=' value))

-- netloc.split("@", 1)[1] where there is an "@"
unfoldable pub strip_userinfo : String → Option String
strip_userinfo netloc = elim (split_once b'@' netloc) [
  | none ↦ none
  | some (user, rest) ↦ some rest
]

abbrev pub redacts_pair : String → String → Bool
redacts_pair k v = should_redact_url_key k && (not (v == "") && not (is_placeholder v))

-- The loop over `pairs`: the new pairs, and `redacted_any`.
unfoldable pub redact_pairs : List (String × String) → List (String × String) × Bool
redact_pairs [] = ([], false)
redact_pairs ((k, v) ∷ pairs) =
    let (rest, changed) = redact_pairs pairs in
    if redacts_pair k v then ((k, "<redacted>") ∷ rest, true) else ((k, v) ∷ rest, changed)

abbrev pub or_keep : Option String → String → String
or_keep none old = old
or_keep (some new) old = new

abbrev pub was_changed : Option String → Bool
was_changed none = false
was_changed (some new) = true

unfoldable pub new_netloc : SplitUrl → Option String
new_netloc parts = strip_userinfo parts.netloc

module _ (u : UrlLib) where
  -- One `if query:` block: the new text, if something was redacted.
  unfoldable pub redact_query : String → Option String
  redact_query query =
      let (out_pairs, redacted_any) = redact_pairs (u.parse_qsl query) in
      if redacted_any then some (u.urlencode out_pairs) else none

  -- The three blocks of `redact_url`, each with its new text if it changes something.
  unfoldable pub new_query : SplitUrl → Option String
  new_query parts = if parts.query == "" then none else redact_query parts.query

  unfoldable pub new_fragment : SplitUrl → Option String
  new_fragment parts =
      if not (parts.fragment == "") && looks_like_query_string parts.fragment
      then redact_query parts.fragment
      else none

  unfoldable pub redacted_parts : SplitUrl → SplitUrl
  redacted_parts parts = record parts {
    netloc = or_keep (new_netloc parts) parts.netloc;
    query = or_keep (new_query parts) parts.query;
    fragment = or_keep (new_fragment parts) parts.fragment;
  }

  unfoldable pub parts_changed : SplitUrl → Bool
  parts_changed parts =
      was_changed (new_netloc parts)
      || (was_changed (new_query parts) || was_changed (new_fragment parts))

  unfoldable pub redact_url : String → String
  redact_url url = if url == "" then url else elim (u.urlsplit url) [
    | none ↦ url
    | some parts ↦
        if parts_changed parts then or_keep (u.urlunsplit (redacted_parts parts)) url else url
  ]

  unfoldable pub redact_url_brief : String → String
  redact_url_brief url = if url == "" then url else elim (u.urlsplit url) [
    | none ↦ url
    | some parts ↦
        or_keep
          (u.urlunsplit (record parts {
            netloc = or_keep (strip_userinfo parts.netloc) parts.netloc;
            query = "";
            fragment = "";
          }))
          url
  ]
