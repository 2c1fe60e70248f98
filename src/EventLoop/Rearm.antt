-- ===== src/EventLoop/Rearm.antt =====
-- What the loop does for the value that a callback returns: process_fd_rearm, process_primary_rearm,
-- process_secondary_rearm, and those of the other watchers. `emulated` is the `emulatefd` of the half.
use dasynq.Prelude.{ℕ, Bool, true, false, Option, none, some, if◌then◌else◌}
use dasynq.Flags.{
  Mask, no_events, in_events, out_events, one_shot, io_events, bit_or, bit_and, has_any,
}
use dasynq.Watcher.{Watcher, Rearm, out_watcher}
use dasynq.Dispatch.Defs
use dasynq.Dispatch.Defs.{Storage, mark_read_removed, mark_write_removed, drop_watches}
use dasynq.EventLoop.Defs.{
  Mechanism, Loop, on_watcher, on_mech, set_fd_enabled_nolock, interrupt_after,
}

unfoldable pub set_emulate_enabled : Bool → Watcher → Watcher
set_emulate_enabled b x = record x { emulate_enabled = b }

-- watch_flags |= flags
unfoldable pub add_watches : Mask → Watcher → Watcher
add_watches flags x = record x { watch_flags = bit_or x.watch_flags flags }

module _ {M : Type 0} where
  -- the watcher `w`
  abbrev pub at : Loop M → ℕ → Watcher
  at l w = l.dispatch.watcher w

  module _ (m : Mechanism M) where
    -- enable the directions of `watch_flags`
    unfoldable pub enable_io : ℕ → Bool → Loop M → Loop M
    enable_io w b l =
        set_fd_enabled_nolock m w (at l w).watch_fd (bit_and (at l w).watch_flags io_events) b l

    unfoldable pub disable : ℕ → Mask → Loop M → Loop M
    disable w flags l = on_mech (m.disable_fd_watch_nolock (at l w).watch_fd flags) l

    unfoldable pub remove_fd : ℕ → Mask → Loop M → Loop M
    remove_fd w flags l = on_mech (m.remove_fd_watch_nolock (at l w).watch_fd flags) l

    unfoldable pub process_signal_rearm : ℕ → Rearm → Loop M → Loop M
    process_signal_rearm w Rearm.rearm l =
        interrupt_after m m.interrupt_after_signal_add
          (on_mech (m.rearm_signal_watch_nolock (at l w).siginfo w) l)
    process_signal_rearm w Rearm.remove l =
        on_mech (m.remove_signal_watch_nolock (at l w).siginfo) l
    process_signal_rearm w Rearm.disarm l = l
    process_signal_rearm w Rearm.noop l = l
    process_signal_rearm w Rearm.removed l = l
    process_signal_rearm w Rearm.requeue l = l

    unfoldable pub fd_rearm : Bool → ℕ → Rearm → Loop M → Loop M × Rearm
    unfolding enable_io remove_fd disable set_emulate_enabled
    fd_rearm true w Rearm.rearm l = (on_watcher w (set_emulate_enabled true) l, Rearm.requeue)
    fd_rearm true w Rearm.disarm l = (on_watcher w (set_emulate_enabled false) l, Rearm.disarm)
    fd_rearm true w Rearm.noop l =
        (l, if (at l w).emulate_enabled then Rearm.requeue else Rearm.noop)
    fd_rearm true w Rearm.remove l = (l, Rearm.remove)
    fd_rearm true w Rearm.removed l = (l, Rearm.removed)
    fd_rearm true w Rearm.requeue l = (l, Rearm.requeue)
    fd_rearm false w Rearm.rearm l = (enable_io w true l, Rearm.rearm)
    fd_rearm false w Rearm.disarm l = (disable w (at l w).watch_flags l, Rearm.disarm)
    fd_rearm false w Rearm.remove l = (remove_fd w (at l w).watch_flags l, Rearm.remove)
    fd_rearm false w Rearm.noop l = (l, Rearm.noop)
    fd_rearm false w Rearm.removed l = (l, Rearm.removed)
    fd_rearm false w Rearm.requeue l = (l, Rearm.requeue)

    unfoldable pub process_fd_rearm : ℕ → Rearm → Loop M → Loop M × Rearm
    unfolding fd_rearm
    process_fd_rearm w rearm_type l = fd_rearm (at l w).emulatefd w rearm_type l

    -- REMOVE with separate watches, for the directions `flags` of the half; `other` says whether the other
    -- half is removed.
    unfoldable pub remove_separate : Bool → ℕ → Mask → Bool → Loop M → Loop M × Rearm
    unfolding remove_fd
    remove_separate true w flags other l =
        (on_watcher w (drop_watches flags) l, if other then Rearm.remove else Rearm.noop)
    remove_separate false w flags other l = (
      remove_fd w flags (on_watcher w (drop_watches flags) l),
      if other then Rearm.remove else Rearm.noop,
    )

    -- A removed half gives up its direction, by whether the direction is watched, if the other half stays and
    -- the mechanism has no separate watches.
    unfoldable pub end_primary : Bool → Bool → ℕ → Loop M → Loop M
    end_primary false emulated w l = l
    end_primary true true w l = on_watcher w (drop_watches in_events) l
    end_primary true false w l =
        let l' = on_watcher w (drop_watches in_events) l in
        set_fd_enabled_nolock m w (at l' w).watch_fd (at l' w).watch_flags
          (has_any (at l' w).watch_flags) l'

    unfoldable pub end_secondary : Bool → ℕ → Loop M → Loop M
    end_secondary false w l = l
    end_secondary true w l =
        let l' = on_watcher w (drop_watches out_events) l in
        set_fd_enabled_nolock m w (at l' w).watch_fd (at l' w).watch_flags true l'

    -- REMOVE without separate watches, by whether the other half is removed.
    unfoldable pub remove_primary : Bool → ℕ → Bool → Loop M → Loop M × Rearm
    unfolding remove_fd end_primary
    remove_primary emulated w false l =
        (end_primary (has_any (bit_and (at l w).watch_flags in_events)) emulated w l, Rearm.noop)
    remove_primary true w true l = (l, Rearm.remove)
    remove_primary false w true l = (remove_fd w no_events l, Rearm.remove)

    unfoldable pub remove_secondary : ℕ → Bool → Loop M → Loop M × Rearm
    unfolding remove_fd end_secondary
    remove_secondary w false l =
        (end_secondary (has_any (bit_and (at l w).watch_flags out_events)) w l, Rearm.noop)
    remove_secondary w true l = (remove_fd w no_events l, Rearm.remove)

    -- DISARM and REARM of a half that is not emulated, by has_separate_rw_fd_watches; `l` has the new flags.
    unfoldable pub disarm_half : Bool → ℕ → Mask → Bool → Loop M → Loop M
    unfolding enable_io disable
    disarm_half true w flags enabled l = disable w flags l
    disarm_half false w flags enabled l = enable_io w enabled l

    unfoldable pub rearm_half : Bool → ℕ → Mask → Loop M → Loop M
    unfolding enable_io
    rearm_half true w flags l = set_fd_enabled_nolock m w (at l w).watch_fd flags true l
    rearm_half false w flags l = enable_io w true l

    -- REMOVE of a half, by has_separate_rw_fd_watches, after read_removed or write_removed was set.
    unfoldable pub primary_remove : Bool → Bool → ℕ → Loop M → Loop M × Rearm
    unfolding remove_separate remove_primary
    primary_remove true emulated w l = remove_separate emulated w in_events (at l w).write_removed l
    primary_remove false emulated w l = remove_primary emulated w (at l w).write_removed l

    unfoldable pub secondary_remove : Bool → ℕ → Loop M → Loop M × Rearm
    unfolding remove_separate remove_secondary
    secondary_remove true w l = remove_separate false w out_events (at l w).read_removed l
    secondary_remove false w l = remove_secondary w (at l w).read_removed l

    unfoldable pub primary_rearm : Bool → ℕ → Rearm → Loop M → Loop M × Rearm
    unfolding primary_remove disarm_half rearm_half
    primary_rearm emulated w Rearm.remove l =
        primary_remove m.has_separate_rw_fd_watches emulated w (on_watcher w mark_read_removed l)
    primary_rearm true w Rearm.disarm l = (on_watcher w (drop_watches in_events) l, Rearm.disarm)
    primary_rearm false w Rearm.disarm l =
        let l' = on_watcher w (drop_watches in_events) l in
        (
          disarm_half m.has_separate_rw_fd_watches w in_events
              (has_any (bit_and (at l' w).watch_flags io_events)) l',
          Rearm.disarm,
        )
    primary_rearm true w Rearm.rearm l = (on_watcher w (drop_watches in_events) l, Rearm.requeue)
    primary_rearm false w Rearm.rearm l = (
      rearm_half m.has_separate_rw_fd_watches w in_events (on_watcher w (add_watches in_events) l),
      Rearm.rearm,
    )
    primary_rearm true w Rearm.noop l =
        if has_any (bit_and (at l w).watch_flags in_events)
        then (on_watcher w (drop_watches in_events) l, Rearm.requeue)
        else (l, Rearm.noop)
    primary_rearm false w Rearm.noop l = (l, Rearm.noop)
    primary_rearm emulated w Rearm.removed l = (l, Rearm.removed)
    primary_rearm emulated w Rearm.requeue l = (l, Rearm.requeue)

    unfoldable pub process_primary_rearm : ℕ → Rearm → Loop M → Loop M × Rearm
    unfolding primary_rearm
    process_primary_rearm w rearm_type l = primary_rearm (at l w).emulatefd w rearm_type l

    unfoldable pub secondary_rearm : Bool → ℕ → Rearm → Loop M → Loop M × Rearm
    unfolding secondary_remove disarm_half rearm_half
    secondary_rearm true w Rearm.remove l =
        let l' = on_watcher w (drop_watches out_events) (on_watcher w mark_write_removed l) in
        (l', if (at l' w).read_removed then Rearm.remove else Rearm.noop)
    secondary_rearm true w Rearm.disarm l = (on_watcher w (drop_watches out_events) l, Rearm.disarm)
    secondary_rearm true w Rearm.rearm l = (on_watcher w (drop_watches out_events) l, Rearm.requeue)
    secondary_rearm true w Rearm.noop l =
        if has_any (bit_and (at l w).watch_flags out_events)
        then (on_watcher w (drop_watches out_events) l, Rearm.requeue)
        else (l, Rearm.noop)
    secondary_rearm false w Rearm.remove l =
        secondary_remove m.has_separate_rw_fd_watches w (on_watcher w mark_write_removed l)
    secondary_rearm false w Rearm.disarm l = (
      disarm_half m.has_separate_rw_fd_watches w out_events true
          (on_watcher w (drop_watches out_events) l),
      Rearm.disarm,
    )
    secondary_rearm false w Rearm.rearm l = (
      rearm_half m.has_separate_rw_fd_watches w (bit_or out_events one_shot)
          (on_watcher w (add_watches out_events) l),
      Rearm.rearm,
    )
    secondary_rearm false w Rearm.noop l = (l, Rearm.noop)
    secondary_rearm emulated w Rearm.removed l = (l, Rearm.removed)
    secondary_rearm emulated w Rearm.requeue l = (l, Rearm.requeue)

    unfoldable pub process_secondary_rearm : ℕ → Rearm → Loop M → Loop M × Rearm
    unfolding secondary_rearm
    process_secondary_rearm w rearm_type l =
        secondary_rearm (at l (out_watcher w)).emulatefd w rearm_type l

    unfoldable pub process_child_watch_rearm : ℕ → Rearm → Loop M → Loop M
    process_child_watch_rearm w Rearm.remove l = on_mech (m.unreserve_child_watch_nolock w) l
    process_child_watch_rearm w Rearm.disarm l = on_mech (m.unreserve_child_watch_nolock w) l
    process_child_watch_rearm w Rearm.rearm l = l
    process_child_watch_rearm w Rearm.noop l = l
    process_child_watch_rearm w Rearm.removed l = l
    process_child_watch_rearm w Rearm.requeue l = l

    -- what enable_timer_nolock leaves, with the expiries that it reported
    unfoldable pub timer_reported : Storage → ℕ → Loop M → M × Option ℕ → Loop M
    timer_reported al w l (s, none) = record l { loop_mech = s }
    timer_reported al w l (s, some n) = record l {
      loop_mech = s;
      dispatch = Defs.receive_timer_expiry al w n l.dispatch;
    }

    unfoldable pub process_timer_rearm : Storage → ℕ → Rearm → Loop M → Loop M
    unfolding timer_reported
    process_timer_rearm al w Rearm.rearm l =
        timer_reported al w l (m.enable_timer_nolock w true (at l w).clock l.loop_mech)
    process_timer_rearm al w Rearm.remove l = on_mech (m.remove_timer_nolock w (at l w).clock) l
    process_timer_rearm al w Rearm.disarm l =
        timer_reported al w l (m.enable_timer_nolock w false (at l w).clock l.loop_mech)
    process_timer_rearm al w Rearm.noop l = l
    process_timer_rearm al w Rearm.removed l = l
    process_timer_rearm al w Rearm.requeue l = l
