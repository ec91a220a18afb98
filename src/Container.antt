-- ===== src/Container.antt =====
-- axfer/container.c and the formats container-*.c.
pub mod Io
pub mod Au
pub mod RiffWave
pub mod Voc
pub mod Raw
pub mod Session
pub mod Transfer
pub mod Tests
