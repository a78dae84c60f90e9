-- ===== src/Samples.antt =====
-- Runs of the models on concrete data, and the theorems at inputs that meet their hypotheses.
mod Keys
pub mod Database
mod Links
mod Cursors
mod Schemas
mod Filters
mod Objects
mod Indexes
mod Ranges
mod Wild
mod Transactions
mod Queries
mod Watchers
mod Builders
mod Counters
mod Sorted
