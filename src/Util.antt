-- ===== src/Util.antt =====
-- pkg/util
pub mod CmdLine
pub mod Disk
pub mod IfDetails
