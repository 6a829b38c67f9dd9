-- ===== src/Tests/Fixtures.antt =====
-- Stand-ins for what the program calls and does not implement.
use Prim.Native.String
use browser.Prelude.{
  ℕ, ◌+◌, ◌-◌, ◌*◌, ◌/◌, String, ◌≡◌, refl, true, false, none, some, List, [], ◌∷◌, arith, ltb, leb,
  nat_eq, ◌==◌, if◌then◌else◌, ltb→lt,
}
use browser.Text.{split_once}
use browser.Prelude.Int.{pos, pos_part}
use browser.Flow.Floats.{Floats}
use browser.Url.{UrlLib, SplitUrl}

abbrev pub https_parts : String → String → SplitUrl
https_parts netloc query = record {
  scheme = "https";
  netloc = netloc;
  path = "";
  query = query;
  fragment = "";
}

abbrev pub parts_of : String → SplitUrl
parts_of url = elim (split_once b'?' url) [
  | none ↦ https_parts url ""
  | some (netloc, query) ↦ https_parts netloc query
]

abbrev pub join_parts : SplitUrl → String
join_parts parts =
    if parts.query == ""
    then parts.netloc
    else String.◌++◌ parts.netloc (String.◌++◌ "?" parts.query)

abbrev pub one_pair : String → List (String × String)
one_pair query = elim (split_once b'=' query) [ none ↦ [] | some (k, v) ↦ (k, v) ∷ [] ]

abbrev pub show_pairs : List (String × String) → String
show_pairs [] = ""
show_pairs ((k, v) ∷ pairs) = String.◌++◌ k (String.◌++◌ "=" v)

-- URLs of the form `host?key=value`, all of them https.
abbrev pub short_urls : UrlLib
short_urls = record {
  urlsplit = λ url. some (parts_of url);
  urlunsplit = λ parts. some (join_parts parts);
  parse_qsl = one_pair;
  urlencode = show_pairs;
  hostname = λ parts. some parts.netloc;
  urljoin = λ base url. url;
}

pub tenths_asym : (a b : ℕ) → ltb a b ≡ true → ltb b a ≡ false
tenths_asym a b h = ground (arith, ltb→lt a b h)

-- Tenths of a second, as numbers.
abbrev pub tenths : Floats ℕ
tenths = record {
  lt = ltb;
  le = leb;
  tenths = λ n. n;
  hundredths = λ n. n / 10;
  add = λ a b. a + b;
  sub = λ a b. a - b;
  mul = λ a b. a * b / 10;
  div = λ a b. a * 10 / b;
  of_ℕ = λ n. n * 10;
  pow = λ a n. some 10;
  float_of_int = λ n. some (pos_part n * 10);
  float_of_text = λ s. none;
  int_of_float = λ x. some (pos (x / 10));
  int_of_text = λ s. none;
  show = λ x. "";
  is_zero = λ x. nat_eq x 0;
  lt_asym = tenths_asym;
  lt_tenths = λ a b. refl;
}
