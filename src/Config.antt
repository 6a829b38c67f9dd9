-- ===== src/Config.antt =====
-- config.py and http_client.py: the mode of the server, the host allowlist, and the guarded requests.
pub mod Hosts
pub mod Http
use browser.Prelude.{
  ℕ, String, Bool, true, false, ◌||◌, Option, none, some, List, [], ◌∷◌, ◌==◌, if◌then◌else◌,
  one_of,
}
use browser.Text.{strip, lower, lstrip_by, rstrip_by, ends_with, split, is_char}
use Prim.Native.String

pub data Mode : Type 0 where
  extension attach launch : Mode

-- `raw` is `none` where the variable is not set.
unfoldable pub normalize_mode : Option String → Mode
normalize_mode none = launch
normalize_mode (some raw) =
    let mode = lower (strip raw) in
    if one_of mode ("extension" ∷ "ext" ∷ [])
    then extension
    else if one_of mode ("attach" ∷ "connect" ∷ "external" ∷ [])
    then attach
    else launch

-- The part of `BrowserConfig` that guards requests.
pub record BrowserConfig : Type 0 where
  pub mode : Mode
  pub allow_hosts : List String
  pub http_max_bytes : ℕ

-- [host.strip().lower() for host in raw.split(",") if host.strip() and host.strip() != "*"]
unfoldable pub parse_hosts : List String → List String
parse_hosts [] = []
parse_hosts (host ∷ hosts) =
    let rest = parse_hosts hosts in
    if strip host == "" || strip host == "*" then rest else lower (strip host) ∷ rest

unfoldable pub parse_allow_hosts : String → List String
unfolding parse_hosts
parse_allow_hosts raw = parse_hosts (split b',' raw)

abbrev pub strip_dots : String → String
strip_dots s = rstrip_by (is_char b'.') s

-- The host as `is_host_allowed` compares it.
unfoldable pub normalize_host : String → String
normalize_host host = strip_dots (lower (strip host))

unfoldable pub normalize_allowed : String → String
normalize_allowed raw = strip_dots (lstrip_by (is_char b'.') (lower (strip raw)))

-- The body of the loop: whether this entry lets the host through.
unfoldable pub allows : String → String → Bool
allows host raw =
    let allowed = normalize_allowed raw in
    if allowed == "" then false else host == allowed || ends_with host (String.◌++◌ "." allowed)

unfoldable pub allowed_by : List String → String → Bool
allowed_by [] host = false
allowed_by (raw ∷ hosts) host = allows host raw || allowed_by hosts host

unfoldable pub is_host_allowed : BrowserConfig → String → Bool
is_host_allowed config host = elim config.allow_hosts [
  | [] ↦ true
  | raw ∷ hosts ↦ allowed_by (raw ∷ hosts) (normalize_host host)
]
