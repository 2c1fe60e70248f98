-- ===== src/Epoll.antt =====
-- include/dasynq/epoll.h: the class template epoll_loop, the backend for Linux. The calls of the kernel are a
-- parameter.
pub mod Defs
pub mod Events
pub mod Refine
pub mod Rearms
mod Tests
