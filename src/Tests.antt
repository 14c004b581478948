-- ===== src/Tests.antt =====
-- Concrete inputs for the theorems.
mod Threads
mod Scheduling
mod Documents
mod Fibers
mod Logging
mod Configuration
mod Casts
mod Draining
mod Crew
mod Tally
mod Writing
mod Utilities
