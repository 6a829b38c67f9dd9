-- ===== src/SharedGateway/Rescue.antt =====
-- What becomes of a process that waits for a leader that does not connect: the rescue.
use browser.Prelude.{◌≡◌, refl, inl, inr, Bool, true, false, not, ◌&&◌, Bool-cases}
use browser.SharedGateway.{
  Flock, taken, granted, unsupported, Process, Answers, try_acquire, ensure_backend, promote,
  rescue, rescue_and_wait, promote_and_wait, wait_for_connection,
}

abbrev pub is_taken : Flock → Bool
is_taken granted = false
is_taken taken = true
is_taken unsupported = false

-- What the process has become and what its wait returned: where another has the lock of the rescue
-- (`true`), and where it has that lock itself; with the next call it asks for the leader's lock.
abbrev pub RescueEnds : Bool → Answers → Process × Bool → Type 0
RescueEnds true a (q, returned) = (returned ≡ false) × ((q.leader ≡ false) × (q.is_proxy ≡ true))
RescueEnds false a (q, returned) =
    (returned ≡ a.rescue_connects)
    × ((q.leader ≡ true)
        × ((q.rescue_fp ≡ true)
            × (((ensure_backend taken q).leader ≡ false)
                × ((ensure_backend taken q).rescue_fp ≡ true))))

-- A process waits for a leader that does not connect, while the leader's lock is refused to it twice.
-- If another has the lock of the rescue, it stays a proxy without a gateway and returns that nothing
-- connected. Else (that lock is free, or its own, or the system has no locks) it runs a gateway under
-- the lock of the rescue and returns whether that connects; with the next call of any kind, the
-- leader's lock refused again, its gateway is gone, but it still has the lock of the rescue.
pub rescue_lem :
    (a : Answers) (p : Process)
    → a.ensuring ≡ taken
    → a.promoting ≡ taken
    → a.connects ≡ false
    → p.leader_fp ≡ false
    → RescueEnds (is_taken a.rescuing && not p.rescue_fp) a (wait_for_connection a p)
unfolding wait_for_connection promote_and_wait rescue_and_wait ensure_backend promote rescue
    try_acquire
rescue_lem a p ensuring promoting connects h = go a.rescuing refl
  where
    go :
        (answer : Flock)
        → a.rescuing ≡ answer
        → RescueEnds (is_taken a.rescuing && not p.rescue_fp) a (wait_for_connection a p)
    go granted f = elim (Bool-cases p.rescue_fp) [
      | inl e ↦ rw (ensuring, promoting, connects, h, f, e) (refl, (refl, (refl, (refl, refl))))
      | inr e ↦ rw (ensuring, promoting, connects, h, f, e) (refl, (refl, (refl, (refl, refl))))
    ]
    go unsupported f = elim (Bool-cases p.rescue_fp) [
      | inl e ↦ rw (ensuring, promoting, connects, h, f, e) (refl, (refl, (refl, (refl, refl))))
      | inr e ↦ rw (ensuring, promoting, connects, h, f, e) (refl, (refl, (refl, (refl, refl))))
    ]
    go taken f = elim (Bool-cases p.rescue_fp) [
      | inl e ↦ rw (ensuring, promoting, connects, h, f, e) (refl, (refl, (refl, (refl, refl))))
      | inr e ↦ rw (ensuring, promoting, connects, h, f, e) (refl, (refl, refl))
    ]
