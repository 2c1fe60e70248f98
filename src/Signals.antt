-- ===== src/Signals.antt =====
-- include/dasynq/signal.h: the class template signal_events, which keeps the watched signals of a mechanism that
-- catches signals with handlers.
pub mod Defs
pub mod Masks
mod Tests
