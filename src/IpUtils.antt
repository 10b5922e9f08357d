-- ===== src/IpUtils.antt =====
-- The functions of lib/iputils.cpp on strings of code units.
pub mod LongForm
pub mod AddressType
pub mod Routable
mod Tests
