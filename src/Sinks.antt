-- ===== src/Sinks.antt =====
-- The packages under internal/sinks.
pub mod Types
pub mod Dummy
pub mod Stdout
pub mod Influx
pub mod Sink
