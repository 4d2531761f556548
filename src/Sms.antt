-- ===== src/Sms.antt =====
-- service/src/sms.rs: validation, segmentation, UCS2 and the payloads of `AT+CMGS`.
pub mod Validate
pub mod Alphabet
pub mod Segment
pub mod Ucs2
pub mod Frame
pub mod Tests
