-- ===== src/Tests.antt =====
-- Inputs on which the code is run, and the theorems at inputs that meet their hypotheses.
mod Inputs
mod Wire
mod Checksums
mod Sessions
mod Reached
mod Encoding
mod Numbers
mod Conversations
mod Opened
mod Served
mod Bounds
