-- ===== src/Telemetry/Snapshot/Delta.antt =====
-- A snapshot from the cursor on.
use browser.Prelude.{◌≡◌, []}
use browser.Value.{Value}
use browser.Telemetry.Snapshot.{Snapshot}

-- Whether a snapshot shows no entry.
abbrev pub IsEmpty : {F : Type 0} → Snapshot F → Type 0
IsEmpty s =
    (s.console ≡ [])
    × (s.errors ≡ [])
    × (s.network ≡ [])
    × (s.har_lite ≡ [])
    × (s.dialogs ≡ [])
    × (s.navigation ≡ [])
