-- ===== src/Tests.antt =====
-- Concrete runs: the cases of tests/tlv_test.cpp, and an input for each theorem.
mod TlvTest
mod Messages
mod Wire
mod Attributes
mod Calls
mod Link
mod Log
