-- ===== src/SharedGateway/Roles.antt =====
-- What a process runs, by its locks.
use browser.Prelude.{
  ℕ, ◌≡◌, refl, ◌⊎◌, inl, inr, Bool, true, false, not, ◌&&◌, ◌||◌, arith, nat_eq, Bool-cases,
}
use browser.SharedGateway.{
  Flock, granted, taken, unsupported, Process, try_acquire, ensure_backend, promote, rescue,
}
use browser.SharedGateway.Steps.{Processes, update}

-- A process runs a gateway only under a lock, is a proxy exactly if it is a peer, and never runs a
-- gateway while it is a peer.
abbrev pub HasRole : Process → Type 0
HasRole p =
    ((not p.leader || (p.leader_fp || p.rescue_fp)) ≡ true)
    × ((p.peer ≡ p.is_proxy) × ((p.leader && p.peer) ≡ false))

-- A lock is had afterwards, or it was refused to a process that did not have it.
pub try_acquire_cases :
    (answer : Flock) (fp : Bool)
    → (try_acquire answer fp ≡ (true, true))
      ⊎ ((try_acquire answer fp ≡ (false, false)) × (fp ≡ false))
unfolding try_acquire
try_acquire_cases answer true = inl refl
try_acquire_cases granted false = inl refl
try_acquire_cases taken false = inr (refl, refl)
try_acquire_cases unsupported false = inl refl

pub ensure_backend-HasRole : (answer : Flock) (p : Process) → HasRole (ensure_backend answer p)
unfolding ensure_backend
ensure_backend-HasRole answer p = elim (try_acquire_cases answer p.leader_fp) [
  | inl e ↦ rw (e, ensure_backend) (refl, (refl, refl))
  | inr (e, f) ↦ rw (e, ensure_backend) (refl, (refl, refl))
]

pub promote-HasRole : (answer : Flock) (p : Process) → HasRole p → HasRole (promote answer p)
unfolding promote
promote-HasRole answer p h = elim (try_acquire_cases answer p.leader_fp) [
  | inl e ↦ rw (e, promote) (refl, (refl, refl))
  | inr (e, f) ↦ rw (e, promote) (rw f at h)
]

pub rescue-HasRole : (answer : Flock) (p : Process) → HasRole p → HasRole (rescue answer p)
unfolding rescue
rescue-HasRole answer p h = elim (Bool-cases p.is_proxy) [
  | inr g ↦ rw (g, rescue) (rw g at h)
  | inl g ↦ elim (try_acquire_cases answer p.rescue_fp) [
    | inl e ↦ rw (g, e, rescue) (ground arith, (refl, refl))
    | inr (e, f) ↦ rw (g, e, rescue) (rw (f, g) at h)
  ]
]

pub update-HasRole :
    (i : ℕ) (p : Process) (ps : Processes)
    → HasRole p
    → ((j : ℕ) → HasRole (ps j))
    → (j : ℕ) → HasRole (update i p ps j)
update-HasRole i p ps h hs j = elim (Bool-cases (nat_eq i j)) [
  | inl e ↦ rw e h
  | inr e ↦ rw e (hs j)
]
