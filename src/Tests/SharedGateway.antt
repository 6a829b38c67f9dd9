-- ===== src/Tests/SharedGateway.antt =====
-- Runs of two processes: the first takes the leader's lock, the second is a peer and then rescues.
use browser.Prelude.{ℕ, ◌≡◌, refl, inl, inr, true, false, not, ◌&&◌, ◌||◌, nat_eq, Bool-cases}
use browser.SharedGateway.{
  Answers, taken, granted, new_process, try_acquire, ensure_backend, promote, rescue,
  rescue_and_wait, promote_and_wait, wait_for_connection,
}
use browser.SharedGateway.Steps.{Processes, update, ensures, rescues, Reach, here, next}
use browser.SharedGateway.Roles.{HasRole}
use browser.SharedGateway.Exclusion.{Reach-HasRole, Reach-Exclusive}
use browser.SharedGateway.Rescue.{is_taken, RescueEnds, rescue_lem}

-- Opens what the runs below compute with.
runs : Unit {0}
unfolding try_acquire ensure_backend promote rescue rescue_and_wait promote_and_wait
    wait_for_connection
runs = tt

abbrev new_processes : Processes
new_processes i = new_process

abbrev led : Processes
led = update 0 (ensure_backend granted new_process) new_processes

abbrev joined : Processes
joined = update 1 (ensure_backend taken (led 1)) led

abbrev both_lead : Processes
both_lead = update 1 (rescue granted (joined 1)) joined

joined_run : (joined 1).is_proxy ≡ true
unfolding runs
joined_run = refl

both_lead_run : ((both_lead 0).leader && (both_lead 1).leader) ≡ true
unfolding runs
both_lead_run = refl

rescue_free : (j : ℕ) → nat_eq 1 j ≡ false → (joined j).rescue_fp ≡ false
unfolding runs
rescue_free j e = elim (Bool-cases (nat_eq 0 j)) [ inl f ↦ rw (e, f) refl | inr f ↦ rw (e, f) refl ]

both_lead-Reach : Reach both_lead
both_lead-Reach =
    next joined both_lead
      (next led joined (next new_processes led here (ensures 0 granted new_processes (λ j e. refl)))
        (ensures 1 taken led tt))
      (rescues 1 granted joined rescue_free)

Reach-HasRole_example : HasRole (both_lead 1)
Reach-HasRole_example = Reach-HasRole both_lead 1 both_lead-Reach

leads_0 : (both_lead 0).leader ≡ true
unfolding runs
leads_0 = refl

leads_1 : (both_lead 1).leader ≡ true
unfolding runs
leads_1 = refl

Reach-Exclusive_example :
    (((both_lead 0).leader_fp && (both_lead 1).rescue_fp
        || (both_lead 0).rescue_fp && (both_lead 1).leader_fp)
      ≡ true)
    × ((both_lead 2).leader ≡ false)
Reach-Exclusive_example =
    Reach-Exclusive both_lead 0 1 2 both_lead-Reach refl refl refl leads_0 leads_1

-- The leader does not connect and keeps its lock, and the lock of the rescue is free.
abbrev to_rescue : Answers
to_rescue = record {
  ensuring = taken;
  promoting = taken;
  rescuing = granted;
  connects = false;
  leader_connects = true;
  rescue_connects = true;
}

rescue_lem_example :
    RescueEnds
      (is_taken granted && not (joined 1).rescue_fp)
      to_rescue
      (wait_for_connection to_rescue (joined 1))
unfolding runs
rescue_lem_example = rescue_lem to_rescue (joined 1) refl refl refl refl

-- Another process has the lock of the rescue: the wait returns that nothing connected.
refused_run : (wait_for_connection (record to_rescue { rescuing = taken }) (joined 1)).1 ≡ false
unfolding runs
refused_run = refl
