-- ===== src/Gateway/Ports.antt =====
-- `_port_candidates`: the ports that the gateway tries to listen on, in order.
pub mod Lists
pub mod Candidates
use Prim.Native.Char.{code}
use Prim.Native.String.{[], ◌∷◌}
use browser.Prelude.{
  ℕ, zero, suc, ◌+◌, ◌-◌, ◌*◌, String, ◌&&◌, Option, none, some, List, ltb, ◌==◌, if◌then◌else◌,
}
use browser.Prelude.Int.{ℤ, pos, negsuc}
use browser.Text.{is_space, lstrip_by, rstrip_by, strip, split_once, is_digit}
use browser.Telemetry.{clamp_ℤ}
use browser.Gateway.Ports.Lists.{add_port, add_range}

-- int(digits), after the digits that were read before
unfoldable pub read_digits : ℕ → String → ℕ
read_digits n [] = n
read_digits n (c ∷ s) = read_digits (n * 10 + (code c - 48)) s

-- re.match(r"^(\d+)\s*-\s*(\d+)$", raw_range)
unfoldable pub match_range : String → Option (ℕ × ℕ)
match_range raw = elim (split_once b'-' raw) [
  | none ↦ none
  | some (left, right) ↦
      if is_digit (rstrip_by is_space left) && is_digit (lstrip_by is_space right)
      then some (read_digits 0 (rstrip_by is_space left), read_digits 0 (lstrip_by is_space right))
      else none
]

-- int(self.port or 8765)
abbrev pub base_port : ℤ → ℤ
base_port (pos zero) = pos 8765
base_port (pos (suc n)) = pos (suc n)
base_port (negsuc n) = negsuc n

unfoldable pub add_between : ℕ → ℕ → List ℕ → List ℕ
add_between lo hi ports =
    if ltb hi lo
    then add_range (lo - hi + 1) (pos hi) ports
    else add_range (hi - lo + 1) (pos lo) ports

-- The span of the environment, that is read by `int`.
unfoldable pub span_of : (String → Option ℤ) → String → ℕ
span_of read raw =
    if raw == "" then 50 else elim (read raw) [ none ↦ 50 | some n ↦ clamp_ℤ 0 250 n ]

unfoldable pub port_candidates : (String → Option ℤ) → ℤ → String → String → List ℕ
port_candidates read port env_range env_span =
    let base = base_port port in
    if strip env_range == ""
    then add_range (span_of read env_span + 1) base (add_port base List.[])
    else elim (match_range (strip env_range)) [
      | none ↦ add_port base List.[]
      | some (lo, hi) ↦ add_between lo hi (add_port base List.[])
    ]
