-- ===== src/Tests.antt =====
-- The theorems at concrete inputs.
mod Machine
mod Columns
mod Engine
mod Runner
mod Trees
mod Visits
mod Slots
mod Scalar
mod Planes
mod Kernel
mod Differences
mod Expressions
mod Sessions
