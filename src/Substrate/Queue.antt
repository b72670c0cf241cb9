-- ===== src/Substrate/Queue.antt =====
-- queue/queue.py: the durable job queue. Each statement is one atomic step on the table; the time is
-- an argument, in ticks.
pub mod Models
pub mod Table
pub mod Enqueue
pub mod Claim
pub mod Finish
pub mod History
pub mod Identity
pub mod Fencing
pub mod Leases
pub mod Invariant
pub mod Picking
pub mod Accepted
pub mod Once
pub mod Final
pub mod Inspect
pub mod Retry
mod Examples
