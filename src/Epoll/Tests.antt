-- ===== src/Epoll/Tests.antt =====
-- Runs of the theorems about epoll_loop: an epoll set with the descriptor 4, of the bidi watcher 20, which the
-- kernel has disabled.
use dasynq.Prelude.{
  ℕ, ◌≡◌, refl, Bool, ◌&&◌, true, false, Option, none, some, [], ltb, if◌then◌else◌, arith,
}
use dasynq.Prelude.Int.{ℤ, pos, negsuc, eqb_ℤ}
use dasynq.StableHeap.Defs.{compare_stable_prio, stamp}
use dasynq.Flags.{Mask, monotonic, no_events, io_events, in_events, multi_watch, bit_or, clear}
use dasynq.Watcher.{Watcher, fd, default_priority}
use dasynq.Dispatch.Defs.{Storage}
use dasynq.Dispatch.Queue.{IsReady}
use dasynq.Dispatch.Receive.{Received}
use dasynq.EventLoop.Armed.{IsMechanism}
use dasynq.Epoll.Defs.{
  user, EpollEvent, CtlResult, Kernel, Epoll, BaseLoop, epoll_mechanism, add_fd_watch,
  enable_fd_watch, disable_fd_watch,
}
use dasynq.Epoll.Events.{Polled, process_fd_event}
use dasynq.Epoll.Refine.{IsKernel, watch, reads_of, writes_of, is_some, epoll_loop-IsMechanism}
use dasynq.Epoll.Rearms.{Follows, process_fd_event-Follows}

abbrev Interest : Type 0
Interest = ℤ → Option EpollEvent

abbrev change : Option EpollEvent → EpollEvent → Option EpollEvent
change none e = none
change (some old) e = some e

abbrev put : Interest → ℤ → Option EpollEvent → Interest
put k n o g = if eqb_ℤ g n then o else k g

abbrev kernel : Kernel Interest
kernel = record {
  epoll_ctl_add = λ epfd n e k. (put k n (some e), CtlResult.added);
  epoll_ctl_mod = λ epfd n e k. put k n (change (k n) e);
  epoll_ctl_del = λ epfd n k. put k n none;
  signalfd = λ n mask k. (k, pos 9);
  close = λ n k. k;
  read_all = λ n k. (k, []);
}

abbrev interest : Interest → ℤ → ℤ → Option EpollEvent
interest k epfd n = k n

kernel-IsKernel : IsKernel kernel interest
kernel-IsKernel = record {
  add_ok = λ epfd n e k h. ground arith;
  mod_known = λ epfd n e old k h. ground (arith, h);
  mod_unknown = λ epfd n e k h. ground (arith, h);
  del = λ epfd n k. ground arith;
}

abbrev base : BaseLoop (Epoll Interest)
base = record {
  unreserve_child_watch_nolock = λ w s. s;
  enable_timer_nolock = λ w b c s. (s, none);
  remove_timer_nolock = λ w c s. s;
  interrupt_wait = λ s. s;
  reserve_child_watch_nolock = λ w s. (s, true);
  add_child_watch_nolock = λ w p s. (s, true);
  add_timer_nolock = λ w c s. (s, true);
}

epoll_loop-IsMechanism_example :
    (m : IsMechanism
      (epoll_mechanism kernel base)
      (λ s f. reads_of (watch kernel interest s f))
      (λ s f. writes_of (watch kernel interest s f)))
    × ((s : Epoll Interest) (f : ℤ) → m.registered s f ≡ is_some (watch kernel interest s f))
    × ((f : ℤ) (w : ℕ) (flags : Mask) (enabled soft : Bool) (s : Epoll Interest)
        → (add_fd_watch kernel f w flags enabled soft s).1 ≡ some true
        → let r = (add_fd_watch kernel f w flags enabled soft s).0 in
          (m.registered r f ≡ true)
          × (reads_of (watch kernel interest r f) ≡ (flags.bit_1 && enabled))
          × (writes_of (watch kernel interest r f) ≡ (flags.bit_2 && enabled)))
    × ((f : ℤ) (w : ℕ) (flags : Mask) (s : Epoll Interest)
        → m.registered s f ≡ true
        → (m.registered (enable_fd_watch kernel f w flags s) f ≡ true)
          × (m.registered (disable_fd_watch kernel f flags s) f ≡ true))
epoll_loop-IsMechanism_example =
    epoll_loop-IsMechanism kernel interest kernel-IsKernel base (λ s f. refl)

abbrev storage : Storage
storage = record {
  grants = λ n. ltb n 50;
  fresh = λ n. record { prio = stamp (pos 0) 0; hnd = 0 };
  max_size = 100;
}

abbrev bidi : Watcher
bidi = record {
  watch_type = fd;
  active = false;
  deleteme = false;
  emulatefd = false;
  emulate_enabled = false;
  child_termd = false;
  priority = default_priority;
  watch_fd = pos 4;
  watch_flags = bit_or io_events multi_watch;
  event_flags = no_events;
  read_removed = false;
  write_removed = false;
  siginfo = 0;
  watch_pid = 0;
  child_status = 0;
  intervals = 0;
  clock = monotonic;
}

abbrev polled : Polled Interest
polled = record {
  dispatch = record {
    event_queue = record {
      base = record {
        hvec = record {
          array = λ i. record { prio = stamp (pos 0) 0; hnd = 0 };
          size_v = 0;
          capacity_v = 4;
        };
        num_nodes = 2;
        heap_index = λ h. none;
        node_data = λ h. tt;
      };
      sequence = 0;
    };
    watcher = λ w. bidi;
    locked = true;
    removed = [];
    terminated = false;
  };
  mech = record {
    epfd = pos 3;
    sigfd = negsuc 0;
    sigmask = λ n. false;
    sigdata_map = λ n. none;
    kernel = λ f.
        if eqb_ℤ f (pos 4)
        then some (record {
          epollin = false;
          epollout = false;
          epollerr = false;
          epollhup = false;
          epolloneshot = true;
          ptr = user 20;
        })
        else none;
  };
}

polled-IsReady : IsReady storage polled.dispatch
unfolding compare_stable_prio
polled-IsReady = record {
  valid = record {
    base = record {
      room = omega arith;
      vector = record { within = omega arith; bounded = omega arith };
      reserved = omega arith;
      allocated = omega arith;
      indexed = record { forward = λ i a. ground arith; backward = λ g i e. ground arith };
    };
    fresh = λ h a e. ground arith;
    distinct = λ g h a b e f same. ground arith;
  };
  ordered = λ c a b. ground arith;
}

process_fd_event-Follows_example :
    let r = process_fd_event storage kernel 20 in_events polled in
    Received storage 20 in_events polled.dispatch r.dispatch
    × ((r.dispatch.watcher 20).watch_flags ≡ clear bidi.watch_flags in_events)
    × Follows kernel interest kernel-IsKernel
        (r.dispatch.watcher 20).watch_fd
        (r.dispatch.watcher 20).watch_flags
        r.mech
process_fd_event-Follows_example =
    process_fd_event-Follows kernel interest kernel-IsKernel storage 20 in_events polled
      polled-IsReady (omega arith) (omega arith) refl refl refl refl (refl, refl)
