-- ===== src/Tests.antt =====
-- Runs of the models on concrete inputs, and the theorems applied to them.
mod Store
mod Sizes
mod Marking
mod Web
mod Decisions
mod Lookups
mod Identity
mod Copies
mod Codecs
mod Disks
mod Stores
mod Retrievals
mod Answers
mod Deliveries
mod Snapshots
