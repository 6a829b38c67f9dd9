-- ===== src/Placeholder.antt =====
-- The regular expression for placeholders that runbook.py and server/redaction.py share:
-- `{{ name }}`, `${ name }`, with `mem:` or `param:` before the name.
use Prim.Native.Char.{Char, code}
use Prim.Native.String.{[], ◌∷◌}
use browser.Prelude.{
  String, Bool, false, ◌&&◌, ◌||◌, Option, none, some, starts_with, leb, nat_eq, ◌==◌,
  if◌then◌else◌,
}
use browser.Text.{is_space, lstrip_by}

-- [A-Za-z0-9_.-]
unfoldable pub is_name_char : Char → Bool
is_name_char c =
    let n = code c in
    (leb 65 n && leb n 90)
    || (leb 97 n && leb n 122)
    || (leb 48 n && leb n 57)
    || nat_eq n 95
    || nat_eq n 46
    || nat_eq n 45

-- The text behind the prefix `p`, if it begins with it.
unfoldable pub drop_prefix : String → String → Option String
drop_prefix [] s = some s
drop_prefix (d ∷ p) [] = none
drop_prefix (d ∷ p) (c ∷ s) = if nat_eq (code d) (code c) then drop_prefix p s else none

-- (?:mem:|param:)?  A name holds no colon, so the prefix is taken where it stands.
unfoldable pub drop_scope : String → String
drop_scope s = elim (drop_prefix "mem:" s) [
  | some rest ↦ rest
  | none ↦ elim (drop_prefix "param:" s) [ some rest ↦ rest | none ↦ s ]
]

unfoldable pub begins_name : String → Bool
begins_name [] = false
begins_name (c ∷ s) = is_name_char c

-- \s* scope? name \s* closer, matched at the start of the text. The classes do not overlap, so that
-- taking as much as fits is the one way to match.
unfoldable pub matches_body : String → String → Bool
unfolding is_name_char drop_prefix drop_scope begins_name is_space lstrip_by
matches_body closer s =
    let name = drop_scope (lstrip_by is_space s) in
    begins_name name && starts_with (lstrip_by is_space (lstrip_by is_name_char name)) closer

unfoldable pub matches_after : String → String → String → Bool
unfolding matches_body
matches_after opener closer s = elim (drop_prefix opener s) [
  | none ↦ false
  | some body ↦ matches_body closer body
]

-- `_PLACEHOLDER_RE.search(value) is not None`
unfoldable pub search_placeholder : String → Bool
unfolding matches_after
search_placeholder [] = false
search_placeholder (c ∷ s) =
    matches_after "{{" "}}" (c ∷ s) || matches_after "${" "}" (c ∷ s) || search_placeholder s

unfoldable pub is_placeholder : String → Bool
unfolding search_placeholder
is_placeholder value = if value == "" then false else search_placeholder value
