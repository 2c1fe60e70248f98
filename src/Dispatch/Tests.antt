-- ===== src/Dispatch/Tests.antt =====
-- Runs of the theorems about event_dispatch: the watchers 7 and 8 are queued, under the priorities 50 and 60,
-- 20 is a bidi watcher that watches both directions, and three nodes are to spare.
use dasynq.Prelude.{
  ℕ, ◌≡◌, ◌⊎◌, refl, sym, true, false, none, some, [], ltb, ◌==◌, if◌then◌else◌, arith,
}
use dasynq.Prelude.Int.{pos}
use dasynq.StableHeap.Defs.{compare_stable_prio, stamp}
use dasynq.Flags.{monotonic, no_events, io_events, in_events, multi_watch, bit_or, err_events}
use dasynq.Watcher.{Watcher, fd, default_priority, out_watcher}
use dasynq.Dispatch.Defs.{
  Storage, PrioQueue, Dispatch, receive_fd_event, issue_delete, issue_delete_bidi,
  pull_queued_event,
}
use dasynq.Dispatch.Queue.{IsReady, is_pending}
use dasynq.Dispatch.Receive.{Received, rearms, is_multi, receive_fd_event-Received}
use dasynq.Dispatch.DeleteBidi.{Deleted, issue_delete_bidi-Deleted}
use dasynq.Dispatch.Errors.{receive_fd_event_error}
use dasynq.Dispatch.Delete.{Ends, Pulled, issue_delete-Ends, pull_queued_event-Pulled}

abbrev storage : Storage
storage = record {
  grants = λ n. ltb n 50;
  fresh = λ n. record { prio = stamp (pos 0) 0; hnd = 0 };
  max_size = 100;
}

abbrev bidi : Watcher
bidi = record {
  watch_type = fd;
  active = false;
  deleteme = false;
  emulatefd = false;
  emulate_enabled = false;
  child_termd = false;
  priority = default_priority;
  watch_fd = pos 4;
  watch_flags = bit_or io_events multi_watch;
  event_flags = no_events;
  read_removed = false;
  write_removed = false;
  siginfo = 0;
  watch_pid = 0;
  child_status = 0;
  intervals = 0;
  clock = monotonic;
}

abbrev events : PrioQueue
events = record {
  base = record {
    hvec = record {
      array = λ i.
          if i == 0
          then record { prio = stamp (pos 50) 0; hnd = 7 }
          else record { prio = stamp (pos 60) 3; hnd = 8 };
      size_v = 2;
      capacity_v = 8;
    };
    num_nodes = 5;
    heap_index = λ h. if h == 7 then some 0 else if h == 8 then some 1 else none;
    node_data = λ h. tt;
  };
  sequence = 4;
}

abbrev waiting : Dispatch
waiting = record {
  event_queue = events;
  watcher = λ w. bidi;
  locked = false;
  removed = [];
  terminated = false;
}

waiting-IsReady : IsReady storage waiting
unfolding compare_stable_prio
waiting-IsReady = record {
  valid = record {
    base = record {
      room = omega arith;
      vector = record { within = omega arith; bounded = omega arith };
      reserved = omega arith;
      allocated = omega arith;
      indexed = record { forward = λ i a. ground arith; backward = λ g i e. ground arith };
    };
    fresh = λ h a e. ground arith;
    distinct = λ g h a b e f same. ground arith;
  };
  ordered = λ c a b. ground arith;
}

receive_fd_event-Received_example :
    let r = receive_fd_event storage false 20 in_events waiting in
    Received storage 20 in_events waiting r.0
    × (r.1 ≡ rearms (is_multi bidi) false (r.0.watcher 20).watch_flags)
receive_fd_event-Received_example =
    receive_fd_event-Received storage false 20 in_events waiting waiting-IsReady (omega arith)
      (omega arith) refl (λ m. refl)

issue_delete-Ends_example :
    let r = issue_delete storage 7 waiting in (r.locked ≡ false) × Ends storage false 7 waiting r
issue_delete-Ends_example =
    issue_delete-Ends storage 7 waiting waiting-IsReady.valid (λ e. omega arith)

pull_queued_event-Pulled_example :
    ((pull_queued_event waiting ≡ (waiting, none)) × ((g : ℕ) → is_pending waiting g ≡ false))
    ⊎ ((w : ℕ) × (r : Dispatch) × (pull_queued_event waiting ≡ (r, some w))
        × Pulled storage w waiting r)
pull_queued_event-Pulled_example = pull_queued_event-Pulled storage waiting waiting-IsReady

-- The watcher after the error, in a queue like the first one.
abbrev after_error : Dispatch
after_error = record waiting { watcher = λ w. record bidi { watch_flags = io_events } }

after_error-IsReady : IsReady storage after_error
after_error-IsReady = record { valid = waiting-IsReady.valid; ordered = waiting-IsReady.ordered }

after_error-flags :
    (after_error.watcher 20).watch_flags
    ≡ ((receive_fd_event storage false 20 err_events waiting).0.watcher 20).watch_flags
after_error-flags =
    sym
      (receive_fd_event-Received storage false 20 err_events waiting waiting-IsReady (omega arith)
        (omega arith) refl (λ m. refl)).0.watched

receive_fd_event_error_example :
    let r = receive_fd_event storage false 20 in_events after_error in
    (is_multi (after_error.watcher 20) ≡ false)
    × (is_pending r.0 20 ≡ true)
    × (is_pending r.0 (out_watcher 20) ≡ is_pending after_error (out_watcher 20))
    × (r.1 ≡ no_events)
receive_fd_event_error_example =
    receive_fd_event_error storage false 20 err_events in_events waiting after_error waiting-IsReady
      (omega arith) (omega arith) refl refl refl refl after_error-flags after_error-IsReady
      (omega arith) (omega arith) refl

issue_delete_bidi-Deleted_example :
    Deleted storage false false 20 waiting (issue_delete_bidi storage 20 waiting)
issue_delete_bidi-Deleted_example =
    issue_delete_bidi-Deleted storage 20 waiting waiting-IsReady.valid (omega arith) refl refl
