-- ===== src/Dispatch.antt =====
-- include/dasynq.h: the class template event_dispatch, the base of every backend: the queue of pending
-- events and the functions by which a backend reports an event. The lock is `locked`; `removed` lists the
-- watchers whose callback watch_removed was issued, the last first; `terminated` says that a function which
-- is noexcept threw. Backends and the other mechanisms call these functions with the lock held.
pub mod Defs
pub mod Queue
pub mod Receive
pub mod Errors
pub mod Delete
pub mod DeleteBidi
mod Tests
