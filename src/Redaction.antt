-- ===== src/Redaction.antt =====
-- server/redaction.py: what is taken out of URLs, headers and tool arguments before they are logged.
pub mod Url
pub mod Slots
pub mod Values
