-- ===== src/EventLoop.antt =====
-- include/dasynq.h: the class template event_loop and the dispatch functions of the watchers, over the
-- functions of the event mechanism that they call. The mechanism is the template parameter `backend_t`: here
-- it is a record of functions over a state of its own.
pub mod Defs
pub mod Rearm
pub mod Armed
pub mod Callbacks
pub mod Keeps
pub mod Process
pub mod Runs
pub mod Ends
pub mod Removal
mod Tests
pub mod Register
pub mod Guarantee
