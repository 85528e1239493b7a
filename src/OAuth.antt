-- ===== src/OAuth.antt =====
-- The OAuth 2.0 authorization server.
pub mod Domain
pub mod Scopes
pub mod Stores
pub mod External
pub mod Registration
pub mod Authorization
pub mod Exchange
pub mod Validation
pub mod History
mod Scenario
mod Tests
