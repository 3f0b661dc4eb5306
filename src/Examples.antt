-- ===== src/Examples.antt =====
-- Tests and examples: a simulated kernel, and the results that have hypotheses at concrete inputs.
pub mod Simulation
mod Rings
mod Submissions
mod Services
mod Servers
mod Utilities
mod Descriptors
mod Handlers
mod Settings
mod Reports
mod Callbacks
mod Fibers
mod Sorting
mod Clients
mod Pools
mod Tables
mod Clis
mod Starts
mod Owners
mod Awaited
mod UnitTests
