-- ===== src/Tests.antt =====
-- The definitions run on the inputs of the repository's own tests, and the theorems at concrete inputs.
mod Toy
mod Overwriting
mod Paths
mod Kinds
mod Ids
mod Signing
mod Predicates
mod Queries
mod Describe
mod Loop
mod Sources
mod Commands
mod Curve
mod Ticking
