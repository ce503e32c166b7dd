-- ===== src/Tests.antt =====
-- The addresses and the allocator that the tests of several parts run on.
pub mod Samples
mod BufTests
mod MetadataTests
mod Socks5Tests
