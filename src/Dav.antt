-- ===== src/Dav.antt =====
-- source/shared/RCDAVClient.c: what the DAV servers are asked, and what is read off their answers.
pub mod Tree
pub mod Discover
pub mod Inventory
pub mod Inventoried
pub mod Pages
pub mod Collect
pub mod Changes
pub mod Synced
pub mod Turns
pub mod Reports
pub mod Urls
pub mod Since
