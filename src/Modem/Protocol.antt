-- ===== src/Modem/Protocol.antt =====
-- service/src/modem/protocol.rs: parsing and formatting of the AT protocol, with no input or output.
pub mod Line
pub mod Backoff
pub mod Inbound
pub mod Status
pub mod Codes
pub mod Outcome
