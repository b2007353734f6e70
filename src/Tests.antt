-- ===== src/Tests.antt =====
-- Runs of the model on concrete inputs, and properties at inputs that meet their hypotheses.
mod Script
mod Text
mod Registry
mod Forwards
mod Runs
mod Clients
mod Prototypes
mod Directory
mod Interleave
mod Progress
mod Connections
mod Mains
mod Journeys
mod Calls
mod Splits
mod Shares
mod Session
mod Whole
