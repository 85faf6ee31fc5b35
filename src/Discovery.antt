-- ===== src/Discovery.antt =====
-- `app/modules/discovery/`: scans, and the inventory that their results are merged into.
pub mod Inventory
pub mod Scan
