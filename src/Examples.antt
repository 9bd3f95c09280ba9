-- ===== src/Examples.antt =====
-- Runs of the models on small inputs, and the theorems applied to them.
mod Statuses
mod Gates
mod Locks
mod Tiers
mod Jobs
mod Limits
mod Scenes
mod Merges
mod Requests
mod Versions
mod DeadLetters
