-- ===== src/Gateway/Ports/Candidates.antt =====
-- What the gateway may listen on.
use browser.Prelude.{
  ℕ, ◌+◌, ◌-◌, ◌≤◌, String, ◌≡◌, refl, inl, inr, Bool, true, false, ◌||◌, Option, List, [], ◌∷◌,
  ◌++◌, arith, ltb, ◌==◌, if◌then◌else◌, Bool-cases, Option-cases, length, take, All,
}
use browser.Prelude.Int.{ℤ, pos, negsuc}
use browser.Text.{strip}
use browser.Telemetry.{clamp_ℤ}
use browser.Gateway.{has_id}
use browser.Gateway.Ports.{match_range, base_port, add_between, span_of, port_candidates}
use browser.Gateway.Ports.Lists.{
  IsPort, NoDup, add_port, add_range, Extends, add_port-Extends, add_range-Extends,
}

-- A base that is a valid port is the first one.
abbrev pub StartsAt : ℤ → List ℕ → Type 0
StartsAt (negsuc n) ports = Unit
StartsAt (pos p) ports = if ltb p 1 || ltb 65535 p then Unit else (take 1 ports ≡ p ∷ [])

-- With no range in the environment there are few.
abbrev pub IsShort : Bool → List ℕ → Type 0
IsShort true ports = length ports ≤ 252
IsShort false ports = Unit

add_port-StartsAt : (base : ℤ) (rest : List ℕ) → StartsAt base (add_port base [] ++ rest)
unfolding add_port has_id
add_port-StartsAt (negsuc n) rest = tt
add_port-StartsAt (pos p) rest = elim (Bool-cases (ltb p 1 || ltb 65535 p)) [
  | inl e ↦ rw e tt
  | inr e ↦ rw e refl
]

span_of_le : (read : String → Option ℤ) (raw : String) → span_of read raw ≤ 250
unfolding span_of clamp_ℤ
span_of_le read raw = elim (Bool-cases (raw == "")) [
  | inl e ↦ rw e (omega arith)
  | inr e ↦ elim (Option-cases (read raw)) [
    | inl f ↦ rw (e, f) (omega arith)
    | inr (n, f) ↦ rw (e, f) (omega arith)
  ]
]

abbrev Valid : ℤ → List ℕ → Type 0
Valid base ports = (All IsPort ports × NoDup ports) × StartsAt base ports

Extends-Valid :
    (n : ℕ) (base : ℤ) (ports : List ℕ) → Extends n (add_port base []) ports → Valid base ports
Extends-Valid n base ports ((rest, e), (l, h)) = (h, rw e (add_port-StartsAt base rest))

base-Extends : (base : ℤ) → Extends 1 [] (add_port base [])
base-Extends base = add_port-Extends base [] tt tt

ranged-Extends :
    (n : ℕ) (base first : ℤ) → Extends n (add_port base []) (add_range n first (add_port base []))
ranged-Extends n base first =
    add_range-Extends n first (add_port base []) (base-Extends base).1.1.0 (base-Extends base).1.1.1

between-Valid : (base : ℤ) (lo hi : ℕ) → Valid base (add_between lo hi (add_port base []))
unfolding add_between
between-Valid base lo hi = elim (Bool-cases (ltb hi lo)) [
  | inl e ↦ rw e (Extends-Valid (lo - hi + 1) base _ (ranged-Extends (lo - hi + 1) base (pos hi)))
  | inr e ↦ rw e (Extends-Valid (hi - lo + 1) base _ (ranged-Extends (hi - lo + 1) base (pos lo)))
]

base-Valid : (base : ℤ) → Valid base (add_port base [])
unfolding add_range
base-Valid base = Extends-Valid 0 base (add_port base []) (ranged-Extends 0 base base)

spanned-short :
    (base : ℤ) (n : ℕ) → n ≤ 250 → length (add_range (n + 1) base (add_port base [])) ≤ 252
spanned-short base n h =
    omega (arith, (base-Extends base).1.0, (ranged-Extends (n + 1) base base).1.0)

-- However the environment is set: all candidates are valid ports, none comes twice, the configured port
-- is the first if it is valid, and they are 252 at most where no range is set.
pub port_candidates_lem :
    (read : String → Option ℤ) (port : ℤ) (env_range env_span : String)
    → ((All IsPort (port_candidates read port env_range env_span)
          × NoDup (port_candidates read port env_range env_span))
        × StartsAt (base_port port) (port_candidates read port env_range env_span))
      × IsShort (strip env_range == "") (port_candidates read port env_range env_span)
unfolding port_candidates
port_candidates_lem read port env_range env_span = elim (Bool-cases (strip env_range == "")) [
  | inl e ↦
      rw (e, port_candidates)
        (
          Extends-Valid (span_of read env_span + 1) (base_port port) _
              (ranged-Extends (span_of read env_span + 1) (base_port port) (base_port port)),
          spanned-short (base_port port) (span_of read env_span) (span_of_le read env_span),
        )
  | inr e ↦ elim (Option-cases (match_range (strip env_range))) [
    | inl f ↦ rw (e, f, port_candidates) (base-Valid (base_port port), tt)
    | inr ((lo, hi), f) ↦ rw (e, f, port_candidates) (between-Valid (base_port port) lo hi, tt)
  ]
]
