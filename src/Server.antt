-- ===== src/Server.antt =====
-- The lock, monitor and condition server of network/nettest.cc.
pub mod State
pub mod Wire
pub mod Tables
pub mod Locks
pub mod Conditions
pub mod Monitors
pub mod Dispatch
pub mod Replies
pub mod LockSpec
pub mod Updates
pub mod Acquire
pub mod Release
pub mod Creation
pub mod Destruction
pub mod Waiting
pub mod Rounds
pub mod Broadcast
pub mod MonitorLaws
mod Tests
pub mod Numerals
pub mod Requests
mod Examples
