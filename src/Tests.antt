-- ===== src/Tests.antt =====
-- The theorems at concrete inputs, on the data of Tests/Scenario.antt.
mod Scenario
mod Journal
mod Network
mod Photos
mod Policies
mod Texts
mod Syncing
mod Patching
mod Mailing
