-- ===== src/Wiring/Laws.antt =====
-- Laws of the Setup functions and of main.
pub mod Panics
pub mod SafeStart
