-- ===== src/Tests.antt =====
-- Concrete runs of the operations, and each theorem applied at a concrete input.
mod Data
mod Connect
mod Connections
mod Clients
mod Drift
mod Lifecycle
mod Resources
mod Rounds
mod Wiring
mod Answers
mod Updates
mod Creating
mod Environments
mod Projects
