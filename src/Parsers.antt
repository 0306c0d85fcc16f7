-- ===== src/Parsers.antt =====
-- app/parsers: share URLs parsed into nodes.
pub mod Node
pub mod Errors
pub mod Vless
pub mod Hysteria2
pub mod Registry
