-- ===== src/Tests.antt =====
-- The theorems on concrete inputs, one module for each part of the program.
mod Queues
mod Checks
mod Packets
mod Sessions
mod Rounds
mod Rings
mod Starts
mod Mains
mod Trios
mod Prints
mod Losses
mod Fulls
