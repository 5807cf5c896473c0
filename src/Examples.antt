-- ===== src/Examples.antt =====
-- Runs of the code at concrete inputs, one module for each part of it.
mod Batch
mod Captures
mod Evaluations
mod Contexts
mod Adapters
mod Memory
mod Sessions
mod Backends
mod Candidates
mod Logs
mod Models
mod Settings
mod Evidences
mod Media
