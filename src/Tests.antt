-- ===== src/Tests.antt =====
-- The theorems at concrete inputs, and runs of the models.
mod Wire
mod Histories
mod Values
mod Batches
mod Attempts
mod Reductions
mod Overlaps
mod Connections
mod Requests
mod Servers
