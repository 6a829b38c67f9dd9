-- ===== src/Telemetry/Texts.antt =====
-- What telemetry.py does with texts: it cuts them, and reads names of headers and of files.
use Prim.Native.Char.{Char}
use Prim.Native.String
use Prim.Native.String.{[], ◌∷◌}
use browser.Prelude.{
  ℕ, String, Bool, true, false, ◌||◌, Option, none, some, List, starts_with, leb, ◌==◌,
  if◌then◌else◌, one_of,
}
use browser.Text
use browser.Text.{strip, lower, lstrip_by, rstrip_by, is_char, contains, show_ℕ}
use browser.Placeholder.{drop_prefix}

-- `_str` of a text
unfoldable pub cut : ℕ → String → String
cut max_len s =
    if leb (Text.length s) max_len
    then s
    else String.◌++◌ (Text.take max_len s)
        (String.◌++◌ "… <truncated len=" (String.◌++◌ (show_ℕ (Text.length s)) ">"))

abbrev pub secret_parts : List String
secret_parts = List.◌∷◌ "token" (
    List.◌∷◌ "secret" (
      List.◌∷◌ "password"
        (List.◌∷◌ "pass" (List.◌∷◌ "pwd" (List.◌∷◌ "key" (List.◌∷◌ "session" List.[]))))))

abbrev pub contains_some : List String → String → Bool
contains_some List.[] s = false
contains_some (List.◌∷◌ p ps) s = contains s p || contains_some ps s

unfoldable pub is_sensitive_header_name : String → Bool
is_sensitive_header_name name =
    let lk : String = lower (strip name) in
    if lk == ""
    then true
    else if starts_with lk "cookie"
        || (starts_with lk "set-cookie" || starts_with lk "authorization")
    then true
    else contains_some secret_parts lk

abbrev pub wanted_headers : List String
wanted_headers = List.◌∷◌ "content-type" (
    List.◌∷◌ "content-disposition" (
      List.◌∷◌ "accept" (
        List.◌∷◌ "accept-language"
          (List.◌∷◌ "origin" (List.◌∷◌ "referer" (List.◌∷◌ "user-agent" List.[]))))))

abbrev pub wants_value : String → Bool
wants_value lk = if starts_with lk "x-" then true else one_of lk wanted_headers

-- ([^;]+), at the start of a text
unfoldable pub until_semicolon : String → String
until_semicolon [] = ""
until_semicolon (c ∷ s) = let rest = until_semicolon s in if is_char b';' c then "" else c ∷ rest

abbrev is_backslash : Char → Bool
is_backslash = is_char b'\\'

-- What follows "filename", the backslashes that the pattern allows there, and "=".
unfoldable pub filename_at : Bool → String → Option String
filename_at backslashes s =
    if starts_with (lower s) "filename"
    then (let rest : String = Text.drop 8 s in
        elim (drop_prefix "=" (if backslashes then lstrip_by is_backslash rest else rest)) [
          | none ↦ none
          | some value ↦ if until_semicolon value == "" then none else some (until_semicolon value)
        ])
    else none

-- re.search over the text
unfoldable pub search_filename : Bool → String → Option String
search_filename backslashes [] = none
search_filename backslashes (c ∷ s) = elim (filename_at backslashes (c ∷ s)) [
  | some raw ↦ some raw
  | none ↦ search_filename backslashes s
]

-- " and the apostrophe
abbrev is_quote : Char → Bool
is_quote c = is_char 34 c || is_char 39 c

abbrev unquoted : String → String
unquoted raw = rstrip_by is_quote (lstrip_by is_quote (strip raw))

unfoldable pub filename_from_cd : String → Option String
filename_from_cd header = if header == "" then none else elim (search_filename true header) [
  | some raw ↦ some (
      if starts_with (lower (unquoted raw)) "utf-8''"
      then Text.drop 7 (unquoted raw)
      else unquoted raw)
  | none ↦ elim (search_filename false header) [ none ↦ none | some raw ↦ some (unquoted raw) ]
]
