-- ===== src/Store.antt =====
-- app/models.py and app/repositories.py: the tables and the queries.
pub mod Models
pub mod Rows
pub mod Nodes
pub mod Profiles
pub mod Settings
pub mod DeployLogs
pub mod HealthLogs
pub mod Users
pub mod Audit
