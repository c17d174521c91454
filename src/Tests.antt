-- ===== src/Tests.antt =====
-- Runs of the definitions on concrete data, and each theorem at a concrete input.
mod Data
mod Orders
mod History
mod Books
mod Paper
mod Research
mod Stores
mod Targets
mod Simulations
mod Membership
