-- ===== src/Tests.antt =====
-- Runs of the definitions at concrete inputs, and the theorems at inputs that meet their hypotheses.
mod Fixtures
mod Redaction
mod Runbook
mod Config
mod Permissions
mod Flow
mod Timeouts
mod Telemetry
mod Gateway
mod Ports
mod Batch
mod SharedGateway
mod Memory
mod Params
mod Reliability
mod Tier0
mod Macros
