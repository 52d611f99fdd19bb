-- ===== src/Tests.antt =====
-- Runs of the definitions on the demonstration platform, and the theorems at concrete inputs.
mod Formats
mod Calls
mod Admin
mod Meta
mod Transactions
mod Parsing
mod Typing
mod Registers
mod Json
mod Upgrades
mod Machine
mod Replays
mod Written
