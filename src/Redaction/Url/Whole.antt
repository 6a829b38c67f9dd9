-- ===== src/Redaction/Url/Whole.antt =====
-- `redact_url` as a whole: the URL that comes back shows no secret parameter.

use Prim.Native.String
use Prim.Native.String.{char_at}
use text.Mathlib.TextLemmas.{nil-append, cons-append}
use browser.Prelude.{
  String, ◌≡◌, refl, ap, ◌∙◌, ◌≢◌, ◌⊎◌, inl, inr, true, false, ◌||◌, Option, none, some, List, map,
  arith, eq_iff, ◌==◌, Bool-cases, or-false, All,
}
use browser.Text.{split_once, count_char}
use browser.Url.{UrlLib, SplitUrl}
use browser.Redaction.Url.{
  redact_pairs, looks_like_query_string, strip_userinfo, redact_query, or_keep, new_netloc,
  new_query, new_fragment, was_changed, redacted_parts, parts_changed, redact_url, redact_url_brief,
}
use browser.Redaction.Url.Laws.{
  PairIsSafe, redact_pairs-PairIsSafe, keys-redact_pairs, redact_pairs-unchanged,
}

module _ (u : UrlLib) where
  -- `new` shows the parameters of `old` under the same keys, and each of them is safe to show.
  abbrev pub QueryIsSafe : String → String → Type 0
  QueryIsSafe old new =
      ((new ≡ old) × All PairIsSafe (u.parse_qsl old))
      ⊎ ((pairs : List (String × String)) × (new ≡ u.urlencode pairs)
          × All PairIsSafe pairs
          × (map (λ p. p.0) pairs ≡ map (λ p. p.0) (u.parse_qsl old)))

  redact_query-QueryIsSafe :
      (query : String) → QueryIsSafe query (or_keep (redact_query u query) query)
  unfolding redact_query
  redact_query-QueryIsSafe query = elim (Bool-cases (redact_pairs pairs).1) [
    | inl e ↦
        rw e (
          inr
            ((redact_pairs pairs).0, refl, redact_pairs-PairIsSafe pairs, keys-redact_pairs pairs))
    | inr e ↦
        rw e (inl (refl, rw (redact_pairs-unchanged pairs e) at (redact_pairs-PairIsSafe pairs)))
  ]
    where
      pairs : List (String × String)
      pairs = u.parse_qsl query

  query_safe :
      (parts : SplitUrl) → parts.query ≢ "" → QueryIsSafe parts.query (redacted_parts u parts).query
  unfolding redacted_parts new_query
  query_safe parts ne =
      let full : (parts.query == "") ≡ false = ground (arith, eq_iff parts.query "") in
      rw full (redact_query-QueryIsSafe parts.query)

  fragment_safe :
      (parts : SplitUrl)
      → parts.fragment ≢ ""
      → looks_like_query_string parts.fragment ≡ true
      → QueryIsSafe parts.fragment (redacted_parts u parts).fragment
  unfolding redacted_parts new_fragment
  fragment_safe parts ne h =
      let full : (parts.fragment == "") ≡ false = ground (arith, eq_iff parts.fragment "") in
      rw (full, h) (redact_query-QueryIsSafe parts.fragment)

  kept_of_unchanged :
      (new : Option String) (old : String) → was_changed new ≡ false → or_keep new old ≡ old
  kept_of_unchanged none old h = refl
  kept_of_unchanged (some new) old h = cc

  -- No part is rewritten: the redacted parts are the parts.
  unchanged_parts :
      (parts : SplitUrl) → parts_changed u parts ≡ false → redacted_parts u parts ≡ parts
  unfolding parts_changed redacted_parts
  unchanged_parts parts h =
      let (n, more) =
        or-false (was_changed (new_netloc parts))
          (was_changed (new_query u parts) || was_changed (new_fragment u parts)) h in
      let (q, f) =
        or-false (was_changed (new_query u parts)) (was_changed (new_fragment u parts)) more in
      cc (
        kept_of_unchanged (new_netloc parts) parts.netloc n,
        kept_of_unchanged (new_query u parts) parts.query q,
        kept_of_unchanged (new_fragment u parts) parts.fragment f,
      )

  -- A URL that can be split and joined again comes back as its parts with the query safe to show, and
  -- so the fragment where it reads as a query; where nothing is to be redacted it comes back as it was.
  pub redact_url-QueryIsSafe :
      (url : String) (parts : SplitUrl) (joined : String)
      → url ≢ ""
      → u.urlsplit url ≡ some parts
      → u.urlunsplit (redacted_parts u parts) ≡ some joined
      → ((redact_url u url ≡ joined)
          ⊎ ((redact_url u url ≡ url) × (redacted_parts u parts ≡ parts)))
        × (parts.query ≢ "" → QueryIsSafe parts.query (redacted_parts u parts).query)
        × (parts.fragment ≢ ""
            → looks_like_query_string parts.fragment ≡ true
            → QueryIsSafe parts.fragment (redacted_parts u parts).fragment)
  unfolding redact_url
  redact_url-QueryIsSafe url parts joined ne split join =
      let full : (url == "") ≡ false = ground (arith, eq_iff url "") in
      (
        elim (Bool-cases (parts_changed u parts)) [
          | inl e ↦ inl (ground arith)
          | inr e ↦ inr (ground arith, unchanged_parts parts e)
        ],
        query_safe parts,
        fragment_safe parts,
      )

split_once-first :
    (user rest : String)
    → count_char b'@' user ≡ 0
    → split_once b'@' (String.◌++◌ user (String.◌++◌ "@" rest)) ≡ some (user, rest)
unfolding split_once count_char
split_once-first String.[] rest h =
    rw (nil-append (String.◌++◌ "@" rest), cons-append (char_at "@" 0) "" rest, nil-append rest)
      refl
split_once-first (String.◌∷◌ c user) rest h =
    rw (cons-append c user (String.◌++◌ "@" rest)) (ground (arith, split_once-first user rest))

split_once-none : (text : String) → count_char b'@' text ≡ 0 → split_once b'@' text ≡ none
unfolding split_once count_char
split_once-none String.[] h = refl
split_once-none (String.◌∷◌ c text) h = ground (arith, split_once-none text)

strip_userinfo-first :
    (user rest : String)
    → count_char b'@' user ≡ 0
    → strip_userinfo (String.◌++◌ user (String.◌++◌ "@" rest)) ≡ some rest
unfolding strip_userinfo
strip_userinfo-first user rest h = rw (split_once-first user rest h, strip_userinfo) refl

module _ (u : UrlLib) where
  -- The parts that a brief URL keeps.
  abbrev pub brief_parts : String → SplitUrl → SplitUrl
  brief_parts host parts = record parts { netloc = host; query = ""; fragment = "" }

  -- A URL with a user name, or a user name and a password, that hold no "@", as the host holds none,
  -- is shown without them: the redacted URL is joined of parts whose network location is the host, which
  -- holds no "@", and the brief one of the scheme, the host and the path alone.
  pub redact_url-userinfo :
      (url user host joined brief : String) (parts : SplitUrl)
      → url ≢ ""
      → u.urlsplit url ≡ some parts
      → parts.netloc ≡ String.◌++◌ user (String.◌++◌ "@" host)
      → count_char b'@' user ≡ 0
      → count_char b'@' host ≡ 0
      → u.urlunsplit (redacted_parts u parts) ≡ some joined
      → u.urlunsplit (brief_parts host parts) ≡ some brief
      → ((redact_url u url ≡ joined)
          × ((redacted_parts u parts).netloc ≡ host)
          × (split_once b'@' (redacted_parts u parts).netloc ≡ none))
        × (redact_url_brief u url ≡ brief)
  unfolding redact_url redact_url_brief redacted_parts parts_changed new_netloc
  redact_url-userinfo url user host joined brief parts ne split at_user plain plain' join short =
      let full : (url == "") ≡ false = ground (arith, eq_iff url "") in
      let cut : strip_userinfo parts.netloc ≡ some host =
        ap strip_userinfo at_user ∙ strip_userinfo-first user host plain in
      let changed : parts_changed u parts ≡ true = rw cut refl in
      (
        (
          rw (full, split, changed, join, redact_url) refl,
          rw cut refl,
          rw cut (split_once-none host plain'),
        ),
        rw (full, split, cut, short, redact_url_brief) refl,
      )
