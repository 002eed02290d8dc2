-- ===== src/Tests.antt =====
-- The theorems applied at concrete inputs.
mod Ranges
mod Paths
mod Jobs
mod Queue
mod Allocation
mod Content
mod Local
mod Remote
