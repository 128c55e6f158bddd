-- ===== src/Store.antt =====
-- internal/store: the changes of a mutation with their events, their sequence numbers, and the rollups that they dirty.
pub mod Changes
pub mod Events
pub mod Described
pub mod Failures
pub mod Numbering
pub mod Rollups
pub mod Database
pub mod Flush
pub mod Mutate
mod Examples
