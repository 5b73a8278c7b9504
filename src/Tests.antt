-- ===== src/Tests.antt =====
-- Tests of the model on concrete data, and the theorems at inputs that meet their hypotheses.
mod Data
mod Unary
mod Entries
mod Accounts
mod Clients
mod Labels
mod Resources
mod Removals
mod Views
mod Ledger
mod Passwords
mod Limits
mod Merges
mod Names
mod Sealed
mod Files
mod Saved
