-- ===== src/Memory/Keys.antt =====
-- The keys that `memory_set` takes.
use Prim.Native.Char.{Char, code}
use Prim.Native.String.{[], ◌∷◌}
use browser.Prelude.{
  String, Bool, true, ◌&&◌, ◌||◌, Option, none, some, ltb, leb, nat_eq, ◌==◌, if◌then◌else◌,
}
use browser.Text

pub data SetError : Type 0 where
  missing_key key_too_long invalid_key not_serializable too_large : SetError

abbrev is_key_char : Char → Bool
is_key_char c =
    let n = code c in
    (leb 65 n && leb n 90)
    || (leb 97 n && leb n 122)
    || (leb 48 n && leb n 57)
    || leb 45 n && leb n 46
    || nat_eq n 95

-- [A-Za-z0-9_.-]*
unfoldable pub are_key_chars : String → Bool
are_key_chars [] = true
are_key_chars (c ∷ s) = is_key_char c && are_key_chars s

unfoldable pub check_key : String → Option SetError
check_key k =
    if k == ""
    then some missing_key
    else if ltb 128 (Text.length k)
    then some key_too_long
    else if are_key_chars k
    then none
    else some invalid_key
