-- ===== src/Examples.antt =====
-- The theorems at concrete inputs, and runs of the definitions.
mod Packets
mod Sessions
mod Clients
mod Networks
mod Boards
mod Logs
mod Operations
mod Shadows
mod Acks
mod Documents
