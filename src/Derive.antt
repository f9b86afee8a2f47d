-- ===== src/Derive.antt =====
-- atat_derive: the code that the derive macros write.
pub mod Urc
pub mod Len
pub mod Cmd
pub mod Resp
pub mod Enum
mod Tests
