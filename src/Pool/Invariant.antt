-- ===== src/Pool/Invariant.antt =====
-- What holds in every state of the pool: who is to compute which cell, and what is done.
pub mod Ledger
pub mod Compute
pub mod Steps
pub mod Reach
