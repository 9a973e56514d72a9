-- ===== src/User.antt =====
-- Programs and the library of user space.
pub mod Grep
pub mod Strings
pub mod Sh
pub mod InputField
pub mod Printf
mod Tests
