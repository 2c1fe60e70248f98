-- ===== src/EventLoop/Tests.antt =====
-- Runs of the theorems about the event loop: a mechanism that watches one descriptor, without separate
-- watches, and the bidi watcher 20, whose two directions it watches; nothing is queued.
use dasynq.Prelude.{ℕ, ◌≡◌, refl, Bool, true, false, none, [], ltb, arith}
use dasynq.Prelude.Int.{ℤ, pos}
use dasynq.Flags.{monotonic, no_events, io_events, multi_watch, bit_or}
use dasynq.Watcher.{Watcher, Rearm, fd, default_priority}
use dasynq.StableHeap.Defs.{stamp, compare_stable_prio}
use dasynq.AttnLock.{no_waiters}
use dasynq.Dispatch.Defs.{Storage, lock}
use dasynq.EventLoop.Defs.{Mechanism, Loop, on_dispatch}
use dasynq.EventLoop.Rearm.{at, process_primary_rearm, process_secondary_rearm}
use dasynq.EventLoop.Callbacks.{WatcherClass, fd_watcher, rearm_type, is_removed, dispatch}
use dasynq.EventLoop.Process.{process_events}
use dasynq.EventLoop.Armed.{IsMechanism}
use dasynq.EventLoop.Armed.Primary.{OnInput, process_primary_rearm-Rearmed}
use dasynq.EventLoop.Armed.Secondary.{OnOutput, process_secondary_rearm-Rearmed}
use dasynq.EventLoop.Removal.{Outcome, dispatch-Outcome}
use dasynq.Prelude.Compare.{int_compare}
use dasynq.Heap.Valid.{IsOrdered}
use dasynq.StableHeap.Order.{stable_compare}
use dasynq.StableHeap.Fifo
use dasynq.EventLoop.Register.{
  unreserve, Registry, register_signal, reserve_child_watch, register_child,
}
use dasynq.EventLoop.Guarantee.{Guaranteed, registration-Guaranteed}
use dasynq.EventLoop.Runs.{Processed, process_events-Processed}

record Kernel : Type 0 where
  reading : Bool
  writing : Bool

abbrev one_fd : Mechanism Kernel
one_fd = record {
  has_separate_rw_fd_watches = false;
  interrupt_after_fd_add = true;
  interrupt_after_signal_add = false;
  enable_fd_watch_nolock = λ f w flags s. record { reading = flags.bit_1; writing = flags.bit_2 };
  disable_fd_watch_nolock = λ f flags s. record { reading = false; writing = false };
  remove_fd_watch_nolock = λ f flags s. record { reading = false; writing = false };
  rearm_signal_watch_nolock = λ n w s. s;
  remove_signal_watch_nolock = λ n s. s;
  unreserve_child_watch_nolock = λ w s. s;
  enable_timer_nolock = λ w b c s. (s, none);
  remove_timer_nolock = λ w c s. s;
  interrupt_wait = λ s. s;
}

abbrev is_reading : Kernel → ℤ → Bool
is_reading s f = s.reading

abbrev is_writing : Kernel → ℤ → Bool
is_writing s f = s.writing

one_fd-IsMechanism : IsMechanism one_fd is_reading is_writing
one_fd-IsMechanism = record {
  registered = λ s f. true;
  enable_joint = λ f w flags s e reg. (refl, refl);
  enable_separate = λ f w flags s e way. absurd (ground (arith, e));
  disable_joint = λ f flags s e. (refl, refl);
  disable_separate = λ f flags s e way. absurd (ground (arith, e));
  remove_joint = λ f flags s e. (refl, refl);
  remove_separate = λ f flags s e. absurd (ground (arith, e));
  interrupts = λ f s. (refl, refl);
}

abbrev storage : Storage
storage = record {
  grants = λ n. ltb n 50;
  fresh = λ n. record { prio = stamp (pos 0) 0; hnd = 0 };
  max_size = 100;
}

abbrev bidi : Watcher
bidi = record {
  watch_type = fd;
  active = true;
  deleteme = false;
  emulatefd = false;
  emulate_enabled = false;
  child_termd = false;
  priority = default_priority;
  watch_fd = pos 4;
  watch_flags = bit_or io_events multi_watch;
  event_flags = no_events;
  read_removed = false;
  write_removed = false;
  siginfo = 0;
  watch_pid = 0;
  child_status = 0;
  intervals = 0;
  clock = monotonic;
}

abbrev quiet_loop : Loop Kernel
quiet_loop = record {
  dispatch = record {
    event_queue = record {
      base = record {
        hvec = record {
          array = λ i. record { prio = stamp (pos 0) 0; hnd = 0 };
          size_v = 0;
          capacity_v = 4;
        };
        num_nodes = 2;
        heap_index = λ h. none;
        node_data = λ h. tt;
      };
      sequence = 0;
    };
    watcher = λ w. bidi;
    locked = false;
    removed = [];
    terminated = false;
  };
  loop_mech = record { reading = true; writing = true };
  waits = no_waiters;
}

-- a callback that returns REMOVE
abbrev gives_up : ℕ → Loop Kernel → Loop Kernel × Rearm
gives_up w l = (l, Rearm.remove)

-- nothing happens while a watcher is removed
abbrev nothing : Bool → ℕ → Loop Kernel → Loop Kernel
nothing b w l = l

abbrev all_fd : ℕ → WatcherClass
all_fd w = fd_watcher

process_primary_rearm-Rearmed_example :
    let r = process_primary_rearm one_fd 20 Rearm.disarm quiet_loop in
    OnInput one_fd is_reading is_writing false Rearm.disarm 20 bidi r.0 × (r.1 ≡ Rearm.disarm)
unfolding one_fd-IsMechanism
process_primary_rearm-Rearmed_example =
    process_primary_rearm-Rearmed one_fd is_reading is_writing 20 Rearm.disarm quiet_loop
      one_fd-IsMechanism (refl, refl) refl refl

process_secondary_rearm-Rearmed_example :
    let r = process_secondary_rearm one_fd 20 Rearm.remove quiet_loop in
    OnOutput one_fd is_reading is_writing false Rearm.remove 20 bidi r.0 × (r.1 ≡ Rearm.noop)
unfolding one_fd-IsMechanism
process_secondary_rearm-Rearmed_example =
    process_secondary_rearm-Rearmed one_fd is_reading is_writing 20 Rearm.remove quiet_loop
      one_fd-IsMechanism (refl, refl) refl refl

dispatch-Outcome_example :
    (l1 : Loop Kernel) × (l1.dispatch.locked ≡ false)
    × (l1.dispatch.event_queue ≡ quiet_loop.dispatch.event_queue)
    × (l1.dispatch.removed ≡ [])
    × (l1.loop_mech ≡ quiet_loop.loop_mech)
    × (let (l', x) = gives_up 20 l1 in
        let l2 = on_dispatch lock l' in
        Outcome one_fd storage gives_up nothing fd_watcher
          (is_removed x)
          (rearm_type (at l2 20).deleteme x)
          20
          l2
          (dispatch one_fd storage gives_up nothing fd_watcher 20 quiet_loop))
dispatch-Outcome_example =
    dispatch-Outcome one_fd storage gives_up nothing fd_watcher 20 quiet_loop refl

process_events-Processed_example :
    Processed one_fd storage all_fd gives_up nothing none quiet_loop
      (process_events one_fd storage all_fd gives_up nothing none quiet_loop)
process_events-Processed_example =
    process_events-Processed one_fd storage all_fd gives_up nothing none quiet_loop

-- a mechanism that takes no new watch
abbrev refuses : Registry Kernel
refuses = record {
  add_signal_watch_nolock = λ n w s. (s, false);
  add_fd_watch = λ f w flags enabled emulate s. (s, none);
  add_bidi_fd_watch = λ f w flags emulate s. (s, none);
  reserve_child_watch_nolock = λ w s. (s, false);
  add_child_watch_nolock = λ w child s. (s, false);
  add_timer_nolock = λ w clock s. (s, false);
}

quiet_loop-IsValid : Fifo.IsValid storage quiet_loop.dispatch.event_queue
quiet_loop-IsValid = record {
  base = record {
    room = omega arith;
    vector = record { within = omega arith; bounded = omega arith };
    reserved = omega arith;
    allocated = omega arith;
    indexed = record { forward = λ i a. ground arith; backward = λ g i e. ground arith };
  };
  fresh = λ h a e. ground arith;
  distinct = λ g h a b e f same. ground arith;
}

quiet_loop-IsOrdered : IsOrdered (stable_compare int_compare) quiet_loop.dispatch.event_queue.base
unfolding compare_stable_prio
quiet_loop-IsOrdered = λ c a b. ground arith

registration-Guaranteed_example :
    Guaranteed storage one_fd refuses quiet_loop
      (register_signal storage one_fd refuses 20 1 quiet_loop)
    × Guaranteed storage one_fd refuses quiet_loop
        (reserve_child_watch storage one_fd refuses 20 quiet_loop)
    × Guaranteed storage one_fd refuses quiet_loop
        (register_child storage one_fd refuses 20 7 quiet_loop)
registration-Guaranteed_example =
    registration-Guaranteed storage one_fd refuses 20 1 7 quiet_loop quiet_loop-IsValid
      quiet_loop-IsOrdered refl

-- unreserve does not return
unreserve-blocks : unreserve storage one_fd refuses 20 quiet_loop ≡ none
unfolding unreserve
unreserve-blocks = refl
