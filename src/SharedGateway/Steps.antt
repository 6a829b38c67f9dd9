-- ===== src/SharedGateway/Steps.antt =====
-- The processes act in any order; each block that the code runs under its lock is one step.
use browser.Prelude.{ℕ, ◌≡◌, Bool, false, nat_eq, if◌then◌else◌}
use browser.SharedGateway.{
  Flock, granted, taken, unsupported, Process, new_process, ensure_backend, promote, rescue, stop,
}

-- All processes, by their number.
abbrev pub Processes : Type 0
Processes = ℕ → Process

abbrev pub update : ℕ → Process → Processes → Processes
update i p ps j = if nat_eq i j then p else ps j

-- How a lock of the operating system answers process i: it is granted only where no other process has
-- it. The lock of a process that has ended is free.
abbrev pub Fair : (Process → Bool) → ℕ → Processes → Flock → Type 0
Fair has i ps granted = (j : ℕ) → nat_eq i j ≡ false → has (ps j) ≡ false
Fair has i ps taken = Unit
Fair has i ps unsupported = ⊥

pub data Step : Processes → Processes → Type 0 where
  ensures :
      (i : ℕ) (answer : Flock) (ps : Processes)
      → Fair (λ p. p.leader_fp) i ps answer
      → Step ps (update i (ensure_backend answer (ps i)) ps)
  promotes :
      (i : ℕ) (answer : Flock) (ps : Processes)
      → Fair (λ p. p.leader_fp) i ps answer
      → Step ps (update i (promote answer (ps i)) ps)
  rescues :
      (i : ℕ) (answer : Flock) (ps : Processes)
      → Fair (λ p. p.rescue_fp) i ps answer
      → Step ps (update i (rescue answer (ps i)) ps)
  stops : (i : ℕ) (ps : Processes) → Step ps (update i (stop (ps i)) ps)

pub data Reach : Processes → Type 0 where
  here : Reach (λ i. new_process)
  next : (ps ps' : Processes) → Reach ps → Step ps ps' → Reach ps'
