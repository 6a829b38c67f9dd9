-- ===== src/SharedGateway/Exclusion.antt =====
-- At most two processes run a gateway, under different locks.
use browser.Prelude.{ℕ, ◌≡◌, refl, inl, inr, true, false, ◌&&◌, ◌||◌, arith, nat_eq}
use browser.SharedGateway.{ensure_backend, promote, rescue, stop}
use browser.SharedGateway.Steps.{
  Processes, Step, ensures, promotes, rescues, stops, Reach, here, next,
}
use browser.SharedGateway.Roles.{
  HasRole, ensure_backend-HasRole, promote-HasRole, rescue-HasRole, update-HasRole,
}
use browser.SharedGateway.Locks.{
  Exclusive, keep-Exclusive, take-Exclusive, drop-Exclusive, backend_fps, promote_fps, rescue_fps,
}

-- What holds whenever the code of each process stands between two steps.
abbrev pub IsSafe : Processes → Type 0
IsSafe ps =
    ((i : ℕ) → HasRole (ps i)) × (Exclusive (λ p. p.leader_fp) ps × Exclusive (λ p. p.rescue_fp) ps)

Step-IsSafe : (ps ps' : Processes) → Step ps ps' → IsSafe ps → IsSafe ps'
unfolding stop
Step-IsSafe ps ps' (ensures i answer _ fair) (roles, (leaders, rescuers)) = (
  update-HasRole i (ensure_backend answer (ps i)) ps (ensure_backend-HasRole answer (ps i)) roles,
  (
    take-Exclusive (λ p. p.leader_fp) i answer (ensure_backend answer (ps i)) ps fair
        (backend_fps answer (ps i)).0 leaders,
    keep-Exclusive (λ p. p.rescue_fp) i (ensure_backend answer (ps i)) ps
        (backend_fps answer (ps i)).1 rescuers,
  ),
)
Step-IsSafe ps ps' (promotes i answer _ fair) (roles, (leaders, rescuers)) = (
  update-HasRole i (promote answer (ps i)) ps (promote-HasRole answer (ps i) (roles i)) roles,
  (
    take-Exclusive (λ p. p.leader_fp) i answer (promote answer (ps i)) ps fair
        (promote_fps answer (ps i)).0 leaders,
    keep-Exclusive (λ p. p.rescue_fp) i (promote answer (ps i)) ps (promote_fps answer (ps i)).1
        rescuers,
  ),
)
Step-IsSafe ps ps' (rescues i answer _ fair) (roles, (leaders, rescuers)) = (
  update-HasRole i (rescue answer (ps i)) ps (rescue-HasRole answer (ps i) (roles i)) roles,
  (
    keep-Exclusive (λ p. p.leader_fp) i (rescue answer (ps i)) ps (rescue_fps answer (ps i)).0
        leaders,
    elim (rescue_fps answer (ps i)).1 [
      | inl e ↦ take-Exclusive (λ p. p.rescue_fp) i answer (rescue answer (ps i)) ps fair e rescuers
      | inr e ↦ keep-Exclusive (λ p. p.rescue_fp) i (rescue answer (ps i)) ps e rescuers
    ],
  ),
)
Step-IsSafe ps ps' (stops i _) (roles, (leaders, rescuers)) = (
  update-HasRole i (stop (ps i)) ps (refl, (refl, refl)) roles,
  (
    drop-Exclusive (λ p. p.leader_fp) i (stop (ps i)) ps refl leaders,
    drop-Exclusive (λ p. p.rescue_fp) i (stop (ps i)) ps refl rescuers,
  ),
)

Reach-IsSafe : (ps : Processes) → Reach ps → IsSafe ps
Reach-IsSafe ps here = ((λ i. (refl, (refl, refl))), ((λ i j e. refl), (λ i j e. refl)))
Reach-IsSafe ps (next ps' _ r step) = Step-IsSafe ps' ps step (Reach-IsSafe ps' r)

-- At any time, where the operating system has locks and grants each to one process at most: a process
-- runs a gateway only under one of the two locks, it is a proxy exactly if it is a peer of another's
-- gateway, and never both at once.
pub Reach-HasRole : (ps : Processes) (i : ℕ) → Reach ps → HasRole (ps i)
Reach-HasRole ps i r = (Reach-IsSafe ps r).0 i

-- Where the operating system grants each lock to one process at most: of two processes that run a
-- gateway at the same time one has the leader's lock and the other that of the rescue, and no third
-- process runs one.
pub Reach-Exclusive :
    (ps : Processes) (i j k : ℕ)
    → Reach ps
    → nat_eq i j ≡ false
    → nat_eq i k ≡ false
    → nat_eq j k ≡ false
    → (ps i).leader ≡ true
    → (ps j).leader ≡ true
    → (((ps i).leader_fp && (ps j).rescue_fp || (ps i).rescue_fp && (ps j).leader_fp) ≡ true)
      × ((ps k).leader ≡ false)
Reach-Exclusive ps i j k r ij ik jk hi hj = go (Reach-IsSafe ps r)
  where
    go :
        IsSafe ps
        → (((ps i).leader_fp && (ps j).rescue_fp || (ps i).rescue_fp && (ps j).leader_fp) ≡ true)
          × ((ps k).leader ≡ false)
    go (roles, (leaders, rescuers)) = (
      ground (arith, hi, hj, (roles i).0, (roles j).0, leaders i j ij, rescuers i j ij),
      ground (
        arith,
        hi,
        hj,
        (roles i).0,
        (roles j).0,
        (roles k).0,
        leaders i j ij,
        rescuers i j ij,
        leaders i k ik,
        rescuers i k ik,
        leaders j k jk,
        rescuers j k jk,
      ),
    )
