-- ===== src/SharedGateway/Locks.antt =====
-- Locks that are held by one process at most.
use browser.Prelude.{ℕ, ◌≡◌, refl, ◌⊎◌, inl, inr, Bool, false, ◌&&◌, arith, nat_eq, Bool-cases}
use browser.SharedGateway.{
  Flock, granted, taken, unsupported, Process, try_acquire, ensure_backend, promote, rescue,
}
use browser.SharedGateway.Steps.{Processes, update, Fair}
use browser.SharedGateway.Roles.{try_acquire_cases}

-- No two processes have the lock.
abbrev pub Exclusive : (Process → Bool) → Processes → Type 0
Exclusive has ps = (i j : ℕ) → nat_eq i j ≡ false → (has (ps i) && has (ps j)) ≡ false

module _ (has : Process → Bool) where
  pub update-Exclusive :
      (i : ℕ) (p : Process) (ps : Processes)
      → ((j : ℕ) → nat_eq i j ≡ false → (has p && has (ps j)) ≡ false)
      → Exclusive has ps
      → Exclusive has (update i p ps)
  update-Exclusive i p ps h ex j k e = elim (Bool-cases (nat_eq i j)) [
    | inl f ↦ elim (Bool-cases (nat_eq i k)) [
      | inl g ↦ absurd (ground (arith, e, f, g))
      | inr g ↦ rw (f, g) (h k g)
    ]
    | inr f ↦ elim (Bool-cases (nat_eq i k)) [
      | inl g ↦ rw (f, g) (ground (arith, h j f))
      | inr g ↦ rw (f, g) (ex j k e)
    ]
  ]

  pub keep-Exclusive :
      (i : ℕ) (p : Process) (ps : Processes)
      → has p ≡ has (ps i)
      → Exclusive has ps
      → Exclusive has (update i p ps)
  keep-Exclusive i p ps h ex = update-Exclusive i p ps (λ j e. rw h (ex i j e)) ex

  pub take-Exclusive :
      (i : ℕ) (answer : Flock) (p : Process) (ps : Processes)
      → Fair has i ps answer
      → has p ≡ (try_acquire answer (has (ps i))).0
      → Exclusive has ps
      → Exclusive has (update i p ps)
  unfolding try_acquire
  take-Exclusive i answer p ps h e ex = update-Exclusive i p ps (alone answer h e) ex
    where
      alone :
          (answer : Flock)
          → Fair has i ps answer
          → has p ≡ (try_acquire answer (has (ps i))).0
          → (j : ℕ) → nat_eq i j ≡ false
          → (has p && has (ps j)) ≡ false
      alone granted h e j f = ground (arith, h j f)
      alone unsupported h e j f = elim h [ ]
      alone taken h e j f = elim (Bool-cases (has (ps i))) [
        | inl g ↦ ground (arith, g, ex i j f)
        | inr g ↦ rw (e, g, try_acquire) refl
      ]

  -- The lock of a process that has none is no obstacle.
  pub drop-Exclusive :
      (i : ℕ) (p : Process) (ps : Processes)
      → has p ≡ false
      → Exclusive has ps
      → Exclusive has (update i p ps)
  drop-Exclusive i p ps h ex = update-Exclusive i p ps (λ j e. rw h refl) ex

pub backend_fps :
    (answer : Flock) (p : Process)
    → ((ensure_backend answer p).leader_fp ≡ (try_acquire answer p.leader_fp).0)
      × ((ensure_backend answer p).rescue_fp ≡ p.rescue_fp)
unfolding ensure_backend
backend_fps answer p = elim (try_acquire_cases answer p.leader_fp) [
  | inl e ↦ rw (e, ensure_backend) (refl, refl)
  | inr (e, f) ↦ rw (e, ensure_backend) (refl, refl)
]

pub promote_fps :
    (answer : Flock) (p : Process)
    → ((promote answer p).leader_fp ≡ (try_acquire answer p.leader_fp).0)
      × ((promote answer p).rescue_fp ≡ p.rescue_fp)
unfolding promote
promote_fps answer p = elim (try_acquire_cases answer p.leader_fp) [
  | inl e ↦ rw (e, promote) (refl, refl)
  | inr (e, f) ↦ rw (e, promote) (refl, refl)
]

-- A rescue may leave its lock as it is.
pub rescue_fps :
    (answer : Flock) (p : Process)
    → ((rescue answer p).leader_fp ≡ p.leader_fp)
      × (((rescue answer p).rescue_fp ≡ (try_acquire answer p.rescue_fp).0)
          ⊎ ((rescue answer p).rescue_fp ≡ p.rescue_fp))
unfolding rescue
rescue_fps answer p = elim (Bool-cases p.is_proxy) [
  | inr g ↦ rw (g, rescue) (refl, inr refl)
  | inl g ↦ elim (try_acquire_cases answer p.rescue_fp) [
    | inl e ↦ rw (g, e, rescue) (refl, inl refl)
    | inr (e, f) ↦ rw (g, e, rescue) (refl, inl refl)
  ]
]
