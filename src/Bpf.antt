-- ===== src/Bpf.antt =====
-- The package pkg/bpf.
pub mod Event
pub mod Stats
pub mod Consumer
pub mod Probe
pub mod Config
pub mod Helper
pub mod Selector
pub mod Loading
