-- ===== src/Loop.antt =====
-- alsaloop/pcmjob.c: frames from a capture PCM to a playback PCM, through a buffer that both share.
pub mod State
pub mod Io
pub mod Pass
pub mod Window
pub mod Ring
pub mod Laws
pub mod Reads
pub mod Writes
pub mod Keeps
mod Tests
