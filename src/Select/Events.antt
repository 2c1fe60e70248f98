-- ===== src/Select/Events.antt =====
-- process_events of select_events: the descriptors that select found ready are reported to event_dispatch.
use dasynq.Prelude.{ℕ, zero, suc, ◌+◌, Bool, true, ◌&&◌, Option, none, some, if◌then◌else◌}
use dasynq.Prelude.Int.{ℤ, pos, ◌+ℤ◌, pos_part}
use dasynq.Flags.{Mask, in_events, out_events, err_events, no_events, bit_or, has_any}
use dasynq.Dispatch.Defs.{Storage, Dispatch, receive_fd_event, lock, unlock}
use dasynq.Select.Defs.{FdSet, Select, clear_read, clear_write}

-- The object: event_dispatch, which is a base class, and the rest.
pub record Polled : Type 0 where
  pub dispatch : Dispatch
  pub sets : Select

-- The user data of a descriptor that is ready and is in the set of the object.
unfoldable pub to_report : Bool → Bool → Option ℕ → Option ℕ
to_report ready watched u = if ready && watched then u else none

unfoldable pub event_flags : Mask → Bool → Mask
event_flags direction is_error = bit_or direction (if is_error then err_events else no_events)

module _ (al : Storage) where
  -- The body of the first loop and of the second, by the user data. The direction leaves the set if
  -- receive_fd_event returns a mask of zero.
  unfoldable pub report_read : Option ℕ → ℤ → Bool → Polled → Polled
  unfolding event_flags
  report_read none fd is_error p = p
  report_read (some userdata) fd is_error p =
      let (d, mask) =
        receive_fd_event al true userdata (event_flags in_events is_error) p.dispatch in
      record { dispatch = d; sets = if has_any mask then p.sets else clear_read fd p.sets }

  unfoldable pub report_write : Option ℕ → ℤ → Bool → Polled → Polled
  unfolding event_flags
  report_write none fd is_error p = p
  report_write (some userdata) fd is_error p =
      let (d, mask) =
        receive_fd_event al true userdata (event_flags out_events is_error) p.dispatch in
      record { dispatch = d; sets = if has_any mask then p.sets else clear_write fd p.sets }

  module _ (read_set_p write_set_p error_set_p : FdSet) where
    -- the loops, with `n` rounds to go
    unfoldable pub read_loop : ℕ → ℕ → Polled → Polled
    unfolding report_read to_report
    read_loop zero i p = p
    read_loop (suc n) i p =
        let fd = pos i in
        let u = to_report (read_set_p fd) (p.sets.read_set fd) (p.sets.rd_udata.at fd) in
        read_loop n (i + 1) (report_read u fd (error_set_p fd) p)

    unfoldable pub write_loop : ℕ → ℕ → Polled → Polled
    unfolding report_write to_report
    write_loop zero i p = p
    write_loop (suc n) i p =
        let fd = pos i in
        let u = to_report (write_set_p fd) (p.sets.write_set fd) (p.sets.wr_udata.at fd) in
        write_loop n (i + 1) (report_write u fd (error_set_p fd) p)

    unfoldable pub process_events : Polled → Polled
    unfolding read_loop write_loop
    process_events p =
        let p0 = record p { dispatch = lock p.dispatch } in
        let n = pos_part (p.sets.max_fd +ℤ pos 1) in
        let p' = write_loop n 0 (read_loop n 0 p0) in record p' { dispatch = unlock p'.dispatch }
