-- ===== src/Queue.antt =====
-- integration/queued_batches.py: the planner of mixed-size batches and the PDUs it expects.
pub mod Plan
pub mod Pieces
pub mod Content
pub mod Wire
pub mod Lengths
pub mod Budgets
pub mod Steps
pub mod Limits
pub mod Accepted
