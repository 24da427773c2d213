-- ===== src/Tests.antt =====
-- Tests of the definitions on small inputs, and the theorems at concrete states.
mod Sockets
mod Workers
mod Batches
