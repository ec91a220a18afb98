-- ===== src/Midi.antt =====
-- seq/aplaymidi: a file of MIDI events as aplaymidi.c reads it, and as arecordmidi.c writes it.
pub mod Stream
pub mod Play
pub mod Record
pub mod Vlq
pub mod Turns
pub mod Carry
pub mod Commands
pub mod Exclusive
pub mod Heard
pub mod RoundTrip
pub mod Files
pub mod Output
pub mod Merge
mod Tests
