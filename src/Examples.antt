-- ===== src/Examples.antt =====
-- Runs of the models on small data: each applies a theorem of the other files where all of its
-- conditions hold.
pub mod Data
pub mod Debts
pub mod Shares
pub mod Jobs
pub mod Limits
pub mod Members
pub mod Viewers
pub mod Repeats
pub mod Created
pub mod Invites
pub mod Chores
pub mod Sessions
pub mod Schedule
pub mod Devices
