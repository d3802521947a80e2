-- ===== src/Examples.antt =====
-- Concrete runs of the models: a toy cipher for the parameters of `Crypto.Seal`, and the inputs at
-- which the theorems are applied.
pub mod Toy
pub mod Sealing
pub mod Flow
pub mod Clients
pub mod Stores
pub mod Sessions
pub mod Registered
pub mod Tokens
pub mod Deployment
pub mod Requests
pub mod Mailed
pub mod Local
pub mod Values
pub mod Remembering
