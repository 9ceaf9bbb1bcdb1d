-- ===== src/Tests.antt =====
-- Runs of the code on small inputs, and of the theorems on them.
mod Peers
mod Sending
mod Proto
mod Crypto
mod Server
mod Tasks
mod EndToEnd
mod Races
mod Pool
mod Stores
mod Start
mod Client
