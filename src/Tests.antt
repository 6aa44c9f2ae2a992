-- ===== src/Tests.antt =====
-- Runs of the model at concrete inputs, and the theorems at inputs that meet their hypotheses.
mod Engine
mod Address
mod Sweeps
mod Peers
mod Rules
mod Cycles
mod Settings
mod Machine
mod Cluster
mod Nodes
mod Startup
mod Daemon
mod System
