-- ===== src/Tests.antt =====
-- Concrete observations, memories and disks, and the theorems at them.
mod Observations
mod Memories
mod Budgets
mod Overviews
mod Searches
mod Histories
mod Catalogs
mod Writes
mod Configs
mod Reviews
mod Candidates
mod Captures
mod Reads
mod Markdowns
