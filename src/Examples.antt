-- ===== src/Examples.antt =====
-- Tests: the theorems on small maps from numbers to numbers.
mod Sample
mod Maps
mod Nodes
mod Blocks
mod Checks
mod Chains
mod Walks
mod Slots
