-- ===== src/Tasks.antt =====
-- Background tasks and their queue.
pub mod Domain
pub mod Queue
pub mod Redis
pub mod Reports
pub mod Jobs
pub mod Totals
pub mod Schedules
pub mod Scheduler
pub mod Upcoming
pub mod Backoff
mod Tests
