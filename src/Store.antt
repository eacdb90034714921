-- ===== src/Store.antt =====
-- The formal memory on disk: agc_runtime/store.py and agc_runtime/events.py.
pub mod Disk
pub mod Events
pub mod Receipts
pub mod Transaction
pub mod Methods
pub mod History
pub mod Calls
pub mod Archive
pub mod Retry
