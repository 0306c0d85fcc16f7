-- ===== src/Services.antt =====
-- app/services: what the routes and the Telegram bot call.
pub mod NodeTags
pub mod Settings
pub mod Distribution
pub mod ClientConfigs
pub mod LogInsights
pub mod Metrics
pub mod Audit
pub mod Servers
pub mod Deploy
pub mod Profiles
pub mod Users
pub mod Nodes
pub mod AppBypass
