-- ===== src/Signals/Defs.antt =====
-- The state of signal_events and its functions.
use dasynq.Prelude.{ℕ, Bool, true, false, Option, none, some, write}

abbrev pub Sigset : Type 0
Sigset = ℕ → Bool

-- The object, with the state `B` of its base class and the signal handlers of the process, `K`. `none` is the
-- null pointer. A signal number is below NSIG.
pub record Signals (B K : Type 0) : Type 0 where
  pub active_sigmask : Sigset
  pub sig_userdata : ℕ → Option ℕ
  pub base : B
  pub handlers : K

-- The siginfo that the handler stored: the signal number and the rest.
pub record Siginfo : Type 0 where
  pub si_signo : ℕ
  pub info : ℕ

abbrev pub sigaddset : Sigset → ℕ → Sigset
sigaddset mask signo = write mask signo true

abbrev pub sigdelset : Sigset → ℕ → Sigset
sigdelset mask signo = write mask signo false

-- The two branches of `if (mask_enables)`: the signal becomes active, or it does not stay active.
unfoldable pub activate : Bool → ℕ → Sigset → Sigset
activate true signo mask = sigaddset mask signo
activate false signo mask = sigdelset mask signo

unfoldable pub deactivate : Bool → ℕ → Sigset → Sigset
deactivate true signo mask = sigdelset mask signo
deactivate false signo mask = sigaddset mask signo

-- the active mask of the constructor: sigemptyset or sigfillset
unfoldable pub initial_mask : Bool → Sigset
initial_mask true signo = false
initial_mask false signo = true

module _ {B K : Type 0} (mask_enables : Bool) where
  -- The constructor leaves `sig_userdata` as it is in memory, `u`.
  unfoldable pub signal_events : (ℕ → Option ℕ) → B → K → Signals B K
  unfolding initial_mask
  signal_events u b k = record {
    active_sigmask = initial_mask mask_enables;
    sig_userdata = u;
    base = b;
    handlers = k;
  }

  -- `prepare_signal`, `unprep_signal` and the base class's receive_signal.
  module _ (prepare_signal unprep_signal : ℕ → K → K)
      (receive_signal : Siginfo → ℕ → B → B × Bool) where
    -- the assignments if receive_signal returned true
    unfoldable pub received : ℕ → Signals B K → B × Bool → Signals B K
    unfolding deactivate
    received signo s (b, true) = record s {
      base = b;
      active_sigmask = deactivate mask_enables signo s.active_sigmask;
    }
    received signo s (b, false) = record s { base = b }

    -- process_signal, by the user data of the signal
    unfoldable pub process_for : Option ℕ → Siginfo → Signals B K → Signals B K
    unfolding received
    process_for none sinfo s = s
    process_for (some udata) sinfo s = received sinfo.si_signo s (receive_signal sinfo udata s.base)

    unfoldable pub process_signal : Siginfo → Signals B K → Signals B K
    unfolding process_for
    process_signal sinfo s = process_for (s.sig_userdata sinfo.si_signo) sinfo s

    -- The other process_signal, which also changes the mask `sigmask` of the caller.
    unfoldable pub received_with : ℕ → Sigset → Signals B K → B × Bool → Signals B K × Sigset
    unfolding received activate
    received_with signo sigmask s (b, true) =
        (received signo s (b, true), activate mask_enables signo sigmask)
    received_with signo sigmask s (b, false) = (received signo s (b, false), sigmask)

    unfoldable pub process_with : Option ℕ → Siginfo → Sigset → Signals B K → Signals B K × Sigset
    unfolding received_with
    process_with none sinfo sigmask s = (s, sigmask)
    process_with (some udata) sinfo sigmask s =
        received_with sinfo.si_signo sigmask s (receive_signal sinfo udata s.base)

    unfoldable pub process_signal_mask : Siginfo → Sigset → Signals B K → Signals B K × Sigset
    unfolding process_with
    process_signal_mask sinfo sigmask s =
        process_with (s.sig_userdata sinfo.si_signo) sinfo sigmask s

    unfoldable pub rearm_signal_watch_nolock : ℕ → ℕ → Signals B K → Signals B K
    unfolding activate
    rearm_signal_watch_nolock signo userdata s = record s {
      sig_userdata = write s.sig_userdata signo (some userdata);
      active_sigmask = activate mask_enables signo s.active_sigmask;
    }

    unfoldable pub add_signal_watch_nolock : ℕ → ℕ → Signals B K → Signals B K
    unfolding activate
    add_signal_watch_nolock signo userdata s = record s {
      sig_userdata = write s.sig_userdata signo (some userdata);
      active_sigmask = activate mask_enables signo s.active_sigmask;
      handlers = prepare_signal signo s.handlers;
    }

    unfoldable pub remove_signal_watch_nolock : ℕ → Signals B K → Signals B K
    unfolding deactivate
    remove_signal_watch_nolock signo s = record s {
      handlers = unprep_signal signo s.handlers;
      active_sigmask = deactivate mask_enables signo s.active_sigmask;
      sig_userdata = write s.sig_userdata signo none;
    }
