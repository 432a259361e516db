-- ===== src/Bcmedia.antt =====
-- baichuan/bcmedia: the frames that a camera sends inside a video message.
pub mod Model
pub mod Parse
pub mod Print
pub mod RoundTrip
pub mod Adpcm
pub mod Codex
mod Examples
