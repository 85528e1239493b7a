-- ===== src/Sync.antt =====
-- The synchronisation of sources: core/services/sync.go, core/domain/sync.go and the ledger of failed
-- documents.
pub mod Domain
pub mod Ledger
pub mod Documents
pub mod World
pub mod Changes
pub mod Containers
pub mod Pages
pub mod States
pub mod Sources
mod Tests
