-- ===== src/Services/Users.antt =====
-- app/services/users.py: the changes of groups and users that the administrator makes.
pub mod Forms
pub mod Notify
pub mod Groups
pub mod Accounts
