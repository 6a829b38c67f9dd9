-- ===== src/Text.antt =====
-- Python's methods on `str` that the program calls, over code points.
pub mod Strip
use Prim.Native.Char.{Char, code}
use Prim.Native.String
use Prim.Native.String.{[], ◌∷◌, char_at}
use browser.Prelude.{
  ℕ, zero, suc, ◌+◌, ◌-◌, ◌/◌, ◌%◌, String, Bool, true, not, ◌&&◌, ◌||◌, Option, none, some, List,
  starts_with, ltb, leb, nat_eq, ◌==◌, if◌then◌else◌,
}

-- The code points for which `str.isspace()` holds: what `strip` and the regular expression `\s` take.
unfoldable pub is_space : Char → Bool
is_space c =
    let n = code c in
    (leb 9 n && leb n 13)
    || (leb 28 n && leb n 32)
    || nat_eq n 133
    || nat_eq n 160
    || nat_eq n 5760
    || (leb 8192 n && leb n 8202)
    || nat_eq n 8232
    || nat_eq n 8233
    || nat_eq n 8239
    || nat_eq n 8287
    || nat_eq n 12288

-- `lower` of one character, for ASCII letters; other characters are kept.
unfoldable pub lower_char : Char → Char
lower_char c =
    if leb 65 (code c) && leb (code c) 90
    then char_at "abcdefghijklmnopqrstuvwxyz" (code c - 65)
    else c

unfoldable pub lower : String → String
unfolding lower_char
lower [] = []
lower (c ∷ s) = lower_char c ∷ lower s

-- `upper`, for ASCII letters
unfoldable pub upper : String → String
upper [] = []
upper (c ∷ s) =
    (if leb 97 (code c) && leb (code c) 122
      then char_at "ABCDEFGHIJKLMNOPQRSTUVWXYZ" (code c - 97)
      else c)
    ∷ upper s

-- `s.lstrip(chars)` and `s.rstrip(chars)`, for a set of characters given by its test
unfoldable pub lstrip_by : (Char → Bool) → String → String
lstrip_by p [] = []
lstrip_by p (c ∷ s) = let rest = lstrip_by p s in if p c then rest else c ∷ s

unfoldable pub rstrip_by : (Char → Bool) → String → String
rstrip_by p [] = []
rstrip_by p (c ∷ s) = let rest = rstrip_by p s in if p c && rest == "" then "" else c ∷ rest

unfoldable pub strip : String → String
unfolding lstrip_by rstrip_by is_space
strip s = rstrip_by is_space (lstrip_by is_space s)

abbrev pub is_char : ℕ → Char → Bool
is_char n c = nat_eq (code c) n

-- `t in s`
unfoldable pub contains : String → String → Bool
contains [] t = t == ""
contains (c ∷ s) t = starts_with (c ∷ s) t || contains s t

-- `s.endswith(t)`
unfoldable pub ends_with : String → String → Bool
ends_with [] t = t == ""
ends_with (c ∷ s) t = (c ∷ s) == t || ends_with s t

-- len(s)
unfoldable pub length : String → ℕ
length [] = 0
length (c ∷ s) = suc (length s)

-- Decimal digits of a number in front of `rest`; the fuel bounds the number of digits.
digits_onto : ℕ → ℕ → String → String
digits_onto zero n rest = rest
digits_onto (suc fuel) n rest =
    let more = digits_onto fuel (n / 10) (char_at "0123456789" (n % 10) ∷ rest) in
    if ltb n 10 then char_at "0123456789" n ∷ rest else more

-- str(n) of an integer that is not negative; n + 1 rounds are more than it has digits
unfoldable pub show_ℕ : ℕ → String
unfolding digits_onto
show_ℕ n = digits_onto (suc n) n ""

-- s.split(sep, 1) for a separator of one character: what stands before and behind the first one
unfoldable pub split_once : ℕ → String → Option (String × String)
split_once n [] = none
split_once n (c ∷ s) =
    let rest = split_once n s in
    if nat_eq (code c) n
    then some ("", s)
    else elim rest [ none ↦ none | some (left, right) ↦ some (c ∷ left, right) ]

-- s.count(ch)
unfoldable pub count_char : ℕ → String → ℕ
count_char n [] = 0
count_char n (c ∷ s) = (if nat_eq (code c) n then 1 else 0) + count_char n s

-- s.split(sep) for a separator of one character
split_onto : ℕ → String → String × List String
split_onto n [] = ("", List.[])
split_onto n (c ∷ s) =
    let (part, parts) = split_onto n s in
    if nat_eq (code c) n then ("", List.◌∷◌ part parts) else (c ∷ part, parts)

unfoldable pub split : ℕ → String → List String
unfolding split_onto
split n s = let (part, parts) = split_onto n s in List.◌∷◌ part parts

-- s.isdigit(), for ASCII digits
unfoldable pub all_digits : String → Bool
all_digits [] = true
all_digits (c ∷ s) = leb 48 (code c) && leb (code c) 57 && all_digits s

abbrev pub is_digit : String → Bool
is_digit s = not (s == "") && all_digits s

-- f"<redacted{what}{n}>"
unfoldable pub redacted_label : String → ℕ → String
unfolding show_ℕ
redacted_label what n = String.◌++◌ "<redacted" (String.◌++◌ what (String.◌++◌ (show_ℕ n) ">"))

-- s[:n]
unfoldable pub take : ℕ → String → String
take zero s = ""
take (suc n) [] = ""
take (suc n) (c ∷ s) = c ∷ take n s

-- s[n:]
unfoldable pub drop : ℕ → String → String
drop zero s = s
drop (suc n) [] = ""
drop (suc n) (c ∷ s) = drop n s
