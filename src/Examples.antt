-- ===== src/Examples.antt =====
-- Runs on small concrete states.
pub mod Data
pub mod Access
pub mod Tables
pub mod Folding
pub mod Budget
pub mod Keys
pub mod Packing
pub mod Searching
pub mod Gateways
pub mod Threads
pub mod Scoring
