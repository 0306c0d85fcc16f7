-- ===== src/Tests.antt =====
-- Tests: the definitions and the theorems at concrete inputs.
mod Samples
mod Auth
mod Parsers
mod Singbox
mod Configs
mod Services
mod Users
mod Bots
mod Health
mod Telegram
mod Data
