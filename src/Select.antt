-- ===== src/Select.antt =====
-- include/dasynq/select.h: the class template select_events, the backend for POSIX systems. FD_SETSIZE and the sets
-- that select leaves are parameters.
pub mod Defs
pub mod Events
pub mod Refine
mod Tests
