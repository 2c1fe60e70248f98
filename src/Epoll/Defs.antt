-- ===== src/Epoll/Defs.antt =====
-- The state of an epoll_loop and its functions on watches, with the lock held.
use dasynq.Prelude.{ℕ, Bool, true, false, ◌&&◌, Option, none, some, List, if◌then◌else◌, write}
use dasynq.Prelude.Int.{ℤ, negsuc, eqb_ℤ}
use dasynq.Flags.{Mask, ClockType}
use dasynq.EventLoop.Defs.{Mechanism}
use dasynq.EventLoop.Register.{Registry}

-- `epoll_event::data.ptr`: the null pointer, `&sigfd`, or the user data of a watch.
pub data EventData : Type 0 where
  null : EventData
  sigfd_ptr : EventData
  user : ℕ → EventData

-- The bits of `epoll_event::events` that are used, and the data.
pub record EpollEvent : Type 0 where
  pub epollin : Bool
  pub epollout : Bool
  pub epollerr : Bool
  pub epollhup : Bool
  pub epolloneshot : Bool
  pub ptr : EventData

-- What epoll_ctl returns for EPOLL_CTL_ADD: zero, or -1 with the error EPERM or another one.
pub data CtlResult : Type 0 where
  added eperm failed : CtlResult

-- What read gives from a signalfd: the signal number and the rest of the structure.
pub record Siginfo : Type 0 where
  pub signo : ℕ
  pub info : ℕ

abbrev pub Sigset : Type 0
Sigset = ℕ → Bool

-- The calls of the kernel, on a state of its own. `read_all` is read of a signalfd, called until it fails.
pub record Kernel (K : Type 0) : Type 0 where
  pub epoll_ctl_add : ℤ → ℤ → EpollEvent → K → K × CtlResult
  pub epoll_ctl_mod : ℤ → ℤ → EpollEvent → K → K
  pub epoll_ctl_del : ℤ → ℤ → K → K
  pub signalfd : ℤ → Sigset → K → K × ℤ
  pub close : ℤ → K → K
  pub read_all : ℤ → K → K × List Siginfo

pub record Epoll (K : Type 0) : Type 0 where
  pub epfd : ℤ
  pub sigfd : ℤ
  pub sigmask : Sigset
  pub sigdata_map : ℕ → Option ℕ
  pub kernel : K

-- The functions of a mechanism that epoll_loop takes from its base class.
pub record BaseLoop (M : Type 0) : Type 0 where
  pub unreserve_child_watch_nolock : ℕ → M → M
  pub enable_timer_nolock : ℕ → Bool → ClockType → M → M × Option ℕ
  pub remove_timer_nolock : ℕ → ClockType → M → M
  pub interrupt_wait : M → M
  pub reserve_child_watch_nolock : ℕ → M → M × Bool
  pub add_child_watch_nolock : ℕ → ℕ → M → M × Bool
  pub add_timer_nolock : ℕ → ClockType → M → M × Bool

abbrev pub sigaddset : Sigset → ℕ → Sigset
sigaddset mask signo = write mask signo true

abbrev pub sigdelset : Sigset → ℕ → Sigset
sigdelset mask signo = write mask signo false

abbrev pub is_no_fd : ℤ → Bool
is_no_fd fd = eqb_ℤ fd (negsuc 0)

-- The `epevent` of add_fd_watch, and that of enable_fd_watch if `enabled` is true.
unfoldable pub watch_event : ℕ → Mask → Bool → EpollEvent
watch_event userdata flags enabled = record {
  epollin = flags.bit_1 && enabled;
  epollout = flags.bit_2 && enabled;
  epollerr = false;
  epollhup = false;
  epolloneshot = flags.bit_8;
  ptr = user userdata;
}

-- the `epevent` of disable_fd_watch
unfoldable pub disabled_event : EpollEvent
disabled_event = record {
  epollin = false;
  epollout = false;
  epollerr = false;
  epollhup = false;
  epolloneshot = false;
  ptr = null;
}

-- the `epevent` of the signalfd
unfoldable pub signal_event : EpollEvent
signal_event = record disabled_event { epollin = true; ptr = sigfd_ptr }

module _ {K : Type 0} (kernel : Kernel K) where
  abbrev pub on_kernel : (K → K) → Epoll K → Epoll K
  on_kernel f s = record s { kernel = f s.kernel }

  -- The result of add_fd_watch: `none` if it throws.
  unfoldable pub ctl_result : Bool → CtlResult → Option Bool
  ctl_result soft_fail added = some true
  ctl_result soft_fail eperm = if soft_fail then some false else none
  ctl_result soft_fail failed = none

  unfoldable pub add_fd_watch : ℤ → ℕ → Mask → Bool → Bool → Epoll K → Epoll K × Option Bool
  unfolding ctl_result watch_event
  add_fd_watch fd userdata flags enabled soft_fail s =
      let (k, r) = kernel.epoll_ctl_add s.epfd fd (watch_event userdata flags enabled) s.kernel in
      (record s { kernel = k }, ctl_result soft_fail r)

  -- It always throws.
  unfoldable pub add_bidi_fd_watch : ℤ → ℕ → Mask → Bool → Epoll K → Epoll K × Option Mask
  add_bidi_fd_watch fd userdata flags emulate s = (s, none)

  unfoldable pub remove_fd_watch : ℤ → Mask → Epoll K → Epoll K
  remove_fd_watch fd flags s = on_kernel (kernel.epoll_ctl_del s.epfd fd) s

  unfoldable pub enable_fd_watch : ℤ → ℕ → Mask → Epoll K → Epoll K
  unfolding watch_event
  enable_fd_watch fd userdata flags s =
      on_kernel (kernel.epoll_ctl_mod s.epfd fd (watch_event userdata flags true)) s

  unfoldable pub disable_fd_watch : ℤ → Mask → Epoll K → Epoll K
  unfolding disabled_event
  disable_fd_watch fd flags s = on_kernel (kernel.epoll_ctl_mod s.epfd fd disabled_event) s

  -- The signalfd added to the epoll set, by the result of epoll_ctl; `false` if the function throws.
  unfoldable pub sigfd_added : Epoll K → K × CtlResult → Epoll K × Bool
  sigfd_added s (k, added) = (record s { kernel = k }, true)
  sigfd_added s (k, eperm) = (record s { kernel = kernel.close s.sigfd k; sigfd = negsuc 0 }, false)
  sigfd_added s (k, failed) =
      (record s { kernel = kernel.close s.sigfd k; sigfd = negsuc 0 }, false)

  -- by whether signalfd failed, and whether there was no signalfd
  unfoldable pub sigfd_made : Bool → Bool → Epoll K → Epoll K × Bool
  unfolding sigfd_added signal_event
  sigfd_made true was_no_sigfd s = (s, false)
  sigfd_made false true s =
      sigfd_added s (kernel.epoll_ctl_add s.epfd s.sigfd signal_event s.kernel)
  sigfd_made false false s = (s, true)

  unfoldable pub add_signal_watch_nolock : ℕ → ℕ → Epoll K → Epoll K × Bool
  unfolding sigfd_made
  add_signal_watch_nolock signo userdata s =
      let mask = sigaddset s.sigmask signo in
      let (k, fd) = kernel.signalfd s.sigfd mask s.kernel in
      sigfd_made (is_no_fd fd) (is_no_fd s.sigfd) (record s {
        sigdata_map = write s.sigdata_map signo (some userdata);
        sigmask = mask;
        sigfd = fd;
        kernel = k;
      })

  unfoldable pub rearm_signal_watch_nolock : ℕ → ℕ → Epoll K → Epoll K
  rearm_signal_watch_nolock signo userdata s =
      let mask = sigaddset s.sigmask signo in
      record s { sigmask = mask; kernel = (kernel.signalfd s.sigfd mask s.kernel).0 }

  unfoldable pub remove_signal_watch_nolock : ℕ → Epoll K → Epoll K
  remove_signal_watch_nolock signo s =
      let mask = sigdelset s.sigmask signo in
      record s { sigmask = mask; kernel = (kernel.signalfd s.sigfd mask s.kernel).0 }

  -- What an event loop uses of an epoll_loop.
  unfoldable pub epoll_mechanism : BaseLoop (Epoll K) → Mechanism (Epoll K)
  epoll_mechanism base = record {
    has_separate_rw_fd_watches = false;
    interrupt_after_fd_add = false;
    interrupt_after_signal_add = false;
    enable_fd_watch_nolock = enable_fd_watch;
    disable_fd_watch_nolock = disable_fd_watch;
    remove_fd_watch_nolock = remove_fd_watch;
    rearm_signal_watch_nolock = rearm_signal_watch_nolock;
    remove_signal_watch_nolock = remove_signal_watch_nolock;
    unreserve_child_watch_nolock = base.unreserve_child_watch_nolock;
    enable_timer_nolock = base.enable_timer_nolock;
    remove_timer_nolock = base.remove_timer_nolock;
    interrupt_wait = base.interrupt_wait;
  }

  unfoldable pub epoll_registry : BaseLoop (Epoll K) → Registry (Epoll K)
  epoll_registry base = record {
    add_signal_watch_nolock = add_signal_watch_nolock;
    add_fd_watch = add_fd_watch;
    add_bidi_fd_watch = add_bidi_fd_watch;
    reserve_child_watch_nolock = base.reserve_child_watch_nolock;
    add_child_watch_nolock = base.add_child_watch_nolock;
    add_timer_nolock = base.add_timer_nolock;
  }
