-- ===== src/Watcher.antt =====
-- include/dasynq/basewatchers.h: the state of a watcher, with the fields of all its subclasses. A watcher is
-- known by its address, a number; the `heap_handle` inside a watcher stands at the watcher's address, so
-- the queue's handle is that number, and the out_watcher inside a bidi watcher lies `out_offset` further.
-- The queue is that of StableHeap.Defs over `std::less<int>`; its nodes are empty, since the handles are
-- references (`use_empty_node`). DEFAULT_PRIORITY is 50.
use dasynq.Prelude.{ℕ, ◌+◌, Bool, false}
use dasynq.Prelude.Int.{ℤ, pos}
use dasynq.Flags.{Mask, ClockType}

pub data WatchType : Type 0 where
  signal fd child secondary_fd timer : WatchType

-- enum class rearm
pub data Rearm : Type 0 where
  rearm disarm noop remove removed requeue : Rearm

pub record Watcher : Type 0 where
  -- base_watcher
  pub watch_type : WatchType
  pub active : Bool
  pub deleteme : Bool
  pub emulatefd : Bool
  pub emulate_enabled : Bool
  pub child_termd : Bool
  pub priority : ℤ
  -- base_fd_watcher, base_bidi_fd_watcher
  pub watch_fd : ℤ
  pub watch_flags : Mask
  pub event_flags : Mask
  pub read_removed : Bool
  pub write_removed : Bool
  -- base_signal_watcher (the signal number of `siginfo`), base_child_watcher, base_timer_watcher
  pub siginfo : ℕ
  pub watch_pid : ℕ
  pub child_status : ℕ
  pub intervals : ℕ
  pub clock : ClockType

abbrev pub default_priority : ℤ
default_priority = pos 50

-- base_watcher::init, but for init_handle, which does nothing
unfoldable pub init : Watcher → Watcher
init w = record w {
  active = false;
  deleteme = false;
  emulatefd = false;
  emulate_enabled = false;
  child_termd = false;
  priority = default_priority;
}

abbrev pub out_offset : ℕ
out_offset = 1

-- &w->out_watcher
abbrev pub out_watcher : ℕ → ℕ
out_watcher w = w + out_offset
