-- ===== src/Axfer.antt =====
-- axfer: what its containers (files of PCM frames) stand on.
pub mod Pcm
pub mod Formats
pub mod Os
pub mod Context
pub mod FrameCache
