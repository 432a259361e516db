-- ===== src/Bc.antt =====
-- The Baichuan protocol over TCP: messages, their encryption, and the codec.
pub mod Model
pub mod Crypto
pub mod Context
pub mod Parse
pub mod Print
pub mod Fits
pub mod Written
pub mod RoundTrip
pub mod Cap
pub mod Codex
mod Examples
