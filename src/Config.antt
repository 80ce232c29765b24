-- ===== src/Config.antt =====
-- pkg/config
pub mod Types
pub mod Defaults
pub mod Layout
pub mod Profiles
pub mod Stages
pub mod Cos
pub mod Settings
pub mod Kubelet
pub mod Interfaces
