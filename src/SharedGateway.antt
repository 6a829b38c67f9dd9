-- ===== src/SharedGateway.antt =====
-- extension_gateway_shared.py and extension_leader_lock.py: which process runs the gateway.
pub mod Steps
pub mod Roles
pub mod Locks
pub mod Exclusion
pub mod Rescue
use browser.Prelude.{Bool, true, false, not, ◌&&◌, if◌then◌else◌}

-- What the lock of the operating system answers: it refuses, or it is not there at all.
pub data Flock : Type 0 where
  granted taken unsupported : Flock

-- A process: whether it has the file of each lock open (`_fp`), a gateway of its own (`_leader`), and a
-- connection to that of another (`_peer`).
pub record Process : Type 0 where
  pub leader_fp : Bool
  pub rescue_fp : Bool
  pub leader : Bool
  pub peer : Bool
  pub is_proxy : Bool

abbrev pub new_process : Process
new_process = record {
  leader_fp = false;
  rescue_fp = false;
  leader = false;
  peer = false;
  is_proxy = false;
}

-- The file that is open afterwards, and what is returned.
unfoldable pub try_acquire : Flock → Bool → Bool × Bool
try_acquire answer true = (true, true)
try_acquire granted false = (true, true)
try_acquire taken false = (false, false)
try_acquire unsupported false = (true, true)

unfoldable pub ensure_backend : Flock → Process → Process
ensure_backend answer p =
    let lock : Bool × Bool = try_acquire answer p.leader_fp in
    if lock.1
    then record p { leader_fp = lock.0; leader = true; peer = false; is_proxy = false }
    else record p { leader_fp = lock.0; leader = false; peer = true; is_proxy = true }

-- The promotion of a peer, where the lock of the leader is free by now.
unfoldable pub promote : Flock → Process → Process
promote answer p =
    let lock : Bool × Bool = try_acquire answer p.leader_fp in
    if lock.1
    then record p { leader_fp = lock.0; leader = true; peer = false; is_proxy = false }
    else record p { leader_fp = lock.0 }

-- The rescue of a peer that found no leader.
unfoldable pub rescue : Flock → Process → Process
rescue answer p =
    let lock : Bool × Bool = try_acquire answer p.rescue_fp in
    if not p.is_proxy
    then p
    else if lock.1
    then record p { rescue_fp = lock.0; leader = true; peer = false; is_proxy = false }
    else record p { rescue_fp = lock.0 }

-- The answers of the locks in turn, and whether each gateway that is waited for connects in time.
pub record Answers : Type 0 where
  pub ensuring : Flock
  pub promoting : Flock
  pub rescuing : Flock
  pub connects : Bool
  pub leader_connects : Bool
  pub rescue_connects : Bool

unfoldable pub rescue_and_wait : Answers → Process → Process × Bool
rescue_and_wait a p = let q : Process = rescue a.rescuing p in (q, q.leader && a.rescue_connects)

unfoldable pub promote_and_wait : Answers → Process → Process × Bool
promote_and_wait a p =
    let q : Process = promote a.promoting p in
    let rest : Process × Bool = rescue_and_wait a q in
    if q.leader then (q, a.leader_connects) else rest

unfoldable pub wait_for_connection : Answers → Process → Process × Bool
wait_for_connection a p =
    let q : Process = ensure_backend a.ensuring p in
    let rest : Process × Bool = promote_and_wait a q in
    if a.connects then (q, true) else if q.is_proxy then rest else (q, false)

unfoldable pub stop : Process → Process
stop p = new_process
