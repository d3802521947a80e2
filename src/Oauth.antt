-- ===== src/Oauth.antt =====
-- src/oauth: the authorisation code flow.
pub mod Transaction
pub mod Request
pub mod Tokens
pub mod Code
pub mod ClientAuth
