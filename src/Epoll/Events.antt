-- ===== src/Epoll/Events.antt =====
-- process_events of an epoll_loop: the events of epoll_wait, and the signals read from the signalfd, are reported
-- to event_dispatch.
use dasynq.Prelude.{ℕ, Bool, true, false, ◌||◌, Option, none, some, List, [], ◌∷◌}
use dasynq.Prelude.Int.{ℤ}
use dasynq.Flags.{Mask, has_any}
use dasynq.Dispatch.Defs.{Storage, Dispatch, receive_signal, receive_fd_event, lock, unlock}
use dasynq.Epoll.Defs.{
  EventData, null, sigfd_ptr, user, EpollEvent, Siginfo, Kernel, Epoll, sigdelset, enable_fd_watch,
}

-- The object: event_dispatch, which is a base class, and the rest.
pub record Polled (K : Type 0) : Type 0 where
  pub dispatch : Dispatch
  pub mech : Epoll K

-- The flags of an event, for receive_fd_event.
unfoldable pub event_mask : EpollEvent → Mask
event_mask e = record {
  bit_1 = e.epollin;
  bit_2 = e.epollout;
  bit_4 = e.epollhup || e.epollerr;
  bit_8 = false;
}

module _ {K : Type 0} (kernel : Kernel K) where
  -- by whether the watch mask that receive_fd_event returned is not zero
  unfoldable pub rearm_fd : Bool → ℤ → ℕ → Mask → Epoll K → Epoll K
  rearm_fd true fd userdata flags s = enable_fd_watch kernel fd userdata flags s
  rearm_fd false fd userdata flags s = s

module _ {K : Type 0} (al : Storage) where
  -- the signal is taken out of the mask if receive_signal says so
  unfoldable pub clear_signal : Bool → ℕ → Epoll K → Epoll K
  clear_signal true signo s = record s { sigmask = sigdelset s.sigmask signo }
  clear_signal false signo s = s

  -- by whether the signal has user data
  unfoldable pub report_signal : Option ℕ → Siginfo → Polled K → Polled K
  unfolding clear_signal
  report_signal none i p = p
  report_signal (some userdata) i p =
      let (d, disarm) = receive_signal al i.signo userdata p.dispatch in
      record { dispatch = d; mech = clear_signal disarm i.signo p.mech }

  unfoldable pub report_signals : List Siginfo → Polled K → Polled K
  unfolding report_signal
  report_signals [] p = p
  report_signals (i ∷ rest) p = report_signals rest (report_signal (p.mech.sigdata_map i.signo) i p)

  module _ (kernel : Kernel K) where
    -- the loop that reads, and the call of signalfd after it
    unfoldable pub process_signals : Polled K → Polled K
    unfolding report_signals
    process_signals p =
        let (k, infos) = kernel.read_all p.mech.sigfd p.mech.kernel in
        let p' = report_signals infos (record p { mech = record p.mech { kernel = k } }) in
        let (k', fd) = kernel.signalfd p'.mech.sigfd p'.mech.sigmask p'.mech.kernel in
        record p' { mech = record p'.mech { kernel = k' } }

    unfoldable pub process_fd_event : ℕ → Mask → Polled K → Polled K
    unfolding rearm_fd
    process_fd_event userdata flags p =
        let (d, mask) = receive_fd_event al false userdata flags p.dispatch in
        record {
          dispatch = d;
          mech = rearm_fd kernel (has_any mask) (d.watcher userdata).watch_fd userdata mask p.mech;
        }

    -- A null pointer is the user data of a watch that is disabled, of which the kernel may report errors:
    -- event_dispatch takes it for a watcher.
    unfoldable pub process_event : EventData → EpollEvent → Polled K → Polled K
    unfolding process_signals process_fd_event event_mask
    process_event sigfd_ptr e p = process_signals p
    process_event null e p = process_fd_event 0 (event_mask e) p
    process_event (user userdata) e p = process_fd_event userdata (event_mask e) p

    unfoldable pub process_loop : List EpollEvent → Polled K → Polled K
    unfolding process_event
    process_loop [] p = p
    process_loop (e ∷ rest) p = process_loop rest (process_event e.ptr e p)

    unfoldable pub process_events : List EpollEvent → Polled K → Polled K
    unfolding process_loop
    process_events events p =
        let p' = process_loop events (record p { dispatch = lock p.dispatch }) in
        record p' { dispatch = unlock p'.dispatch }
