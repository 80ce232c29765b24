-- ===== src/Console.antt =====
-- pkg/console
pub mod Disks
pub mod DiskPage
pub mod NetworkPage
pub mod VipPage
pub mod Dialog
pub mod ClusterNetwork
pub mod Network
pub mod Nics
pub mod InstallPanel
pub mod Validator
pub mod Retry
pub mod Install
pub mod Webhooks
