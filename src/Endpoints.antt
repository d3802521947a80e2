-- ===== src/Endpoints.antt =====
-- src/endpoints: the handlers, over the components. A handler reads and changes the state store and
-- ends in an answer or in what it throws.
pub mod Handler
pub mod Token
pub mod Userinfo
pub mod Authorize
