-- ===== src/Timer.antt =====
-- include/dasynq/timerbase.h: the class template timer_base, which keeps the timers of a backend in two
-- queues, one for each clock, and reports those that expired to its base class.
pub mod Defs
pub mod Calls
pub mod Data
pub mod Next
pub mod Round
pub mod Pull
pub mod Requeue
pub mod Step
pub mod Chain
pub mod Late
pub mod Loop
pub mod Wait
pub mod Enable
mod Tests
