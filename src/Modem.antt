-- ===== src/Modem.antt =====
-- service/src/modem: the modem, from the lines of its protocol up to the sending of a message.
pub mod Protocol
pub mod Io
pub mod Transport
pub mod Setup
pub mod Inbox
pub mod Send
pub mod Session
pub mod Manager
pub mod Tests
