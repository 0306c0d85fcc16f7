-- ===== src/Telegram.antt =====
-- app/telegram: the bot that administrators and users talk to.
pub mod Types
pub mod Presenters
pub mod Users
pub mod Admins
pub mod Dispatcher
pub mod Client
pub mod Runner
pub mod Diagnostics
