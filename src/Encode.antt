-- ===== src/Encode.antt =====
-- lib/encode.cpp and lib/libfilezilla/encode.hpp: hex, base64, base32 and percent encoding.
pub mod Hex
pub mod Base64
pub mod Base32
pub mod Percent
mod Tests
