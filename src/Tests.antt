-- ===== src/Tests.antt =====
-- Runs of the definitions at concrete inputs, and the theorems at them.
mod Data
mod Maps
mod Transactions
mod Stores
mod Buffers
mod Clients
mod Wires
mod Osds
mod Writers
