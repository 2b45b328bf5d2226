-- ===== src/Tests.antt =====
-- Runs of the program's parts on small inputs, and the theorems at those inputs.
pub mod Data
mod Wire
mod Frames
mod Packets
mod Connections
mod Handlers
mod Sessions
mod Reachability
mod Run
mod Client
mod Windows
