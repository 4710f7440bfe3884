-- ===== src/Devices.antt =====
-- The platform devices of src/devices and the interrupt controller that they drive.
pub mod Gic
pub mod Timer
pub mod Uart
pub mod Rtc
pub mod FwCfg
pub mod Psci
pub mod VirtioBlk
