-- ===== src/Url.antt =====
-- urllib.parse, which the program calls and does not implement: the operations, as a parameter.
use browser.Prelude.{String, Option, List}

-- The result of `urlsplit`.
pub record SplitUrl : Type 0 where
  pub scheme : String
  pub netloc : String
  pub path : String
  pub query : String
  pub fragment : String

pub record UrlLib : Type 0 where
  -- `none` where `urlsplit` raises
  pub urlsplit : String → Option SplitUrl
  -- `none` where `urlunsplit` raises
  pub urlunsplit : SplitUrl → Option String
  -- parse_qsl(query, keep_blank_values=True)
  pub parse_qsl : String → List (String × String)
  -- urlencode(pairs, doseq=True)
  pub urlencode : List (String × String) → String
  -- `parts.hostname`
  pub hostname : SplitUrl → Option String
  pub urljoin : String → String → String
