-- ===== src/Admin.antt =====
-- service/src/admin: the comparison of tokens, the cookies, the store of sessions, the login.
pub mod Bytes
pub mod Cookie
pub mod Session
pub mod Login
pub mod Tests
