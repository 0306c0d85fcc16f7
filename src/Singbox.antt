-- ===== src/Singbox.antt =====
-- app/singbox: generation of sing-box configurations.
pub mod Host
pub mod Deployer
pub mod Presets
pub mod Routes
pub mod Outbounds
pub mod Generator
pub mod ClientGenerator
pub mod Service
