-- ===== src/Audio.antt =====
-- The audio codecs of src/rtsp/codec and src/rtsp/transcode.
pub mod Aac
pub mod Adpcm
pub mod G711
mod Examples
