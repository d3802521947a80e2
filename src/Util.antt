-- ===== src/Util.antt =====
-- src/util: the helpers that every other part stands on.
pub mod Bytes
pub mod Text
pub mod Http
pub mod Cors
pub mod Ip
