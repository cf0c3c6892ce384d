-- ===== src/Witnesses.antt =====
-- Runs of the program's operations at concrete inputs: the cases that the theorems are about.
mod Stamps
mod Tables
mod Locks
mod Tuples
mod Shadows
mod Events
mod Memory
mod Queues
mod Names
mod Suppressed
mod Lines
mod Threads
