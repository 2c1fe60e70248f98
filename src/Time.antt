-- ===== src/Time.antt =====
-- include/dasynq/timerbase.h: time_val and its operators, and divide_timespec. A `time_t` is an
-- integer with no overflow; `tv_nsec` is a number, since no operation here makes it negative where
-- the values that it is given are below a second.
pub mod Defs
pub mod Span
pub mod Order
pub mod Divide
mod Tests
