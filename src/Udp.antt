-- ===== src/Udp.antt =====
-- The Baichuan protocol over UDP.
pub mod Model
pub mod Crypto
pub mod Parse
pub mod Print
pub mod RoundTrip
pub mod Cap
pub mod Codex
pub mod Flow
mod Examples
