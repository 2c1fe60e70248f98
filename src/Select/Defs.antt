-- ===== src/Select/Defs.antt =====
-- The state of select_events and its functions on watches, with the lock held.
use dasynq.Prelude.{ℕ, ◌+◌, Bool, true, false, not, Option, none, some, ltb, leb, if◌then◌else◌}
use dasynq.Prelude.Int.{ℤ, eqb_ℤ, ltb_ℤ, pos_part}
use dasynq.Flags.{Mask, ClockType, no_events, in_events, out_events, bit_and, has_any}
use dasynq.EventLoop.Defs.{Mechanism}
use dasynq.EventLoop.Register.{Registry}

-- An `fd_set`. A descriptor is not negative.
abbrev pub FdSet : Type 0
FdSet = ℤ → Bool

-- A vector of user data; `none` is the null pointer.
pub record Udata : Type 0 where
  pub size : ℕ
  pub at : ℤ → Option ℕ

pub record Select : Type 0 where
  pub read_set : FdSet
  pub write_set : FdSet
  pub max_fd : ℤ
  pub rd_udata : Udata
  pub wr_udata : Udata

-- a cell of a set or a vector changed
abbrev pub put : {A : Type 0} → (ℤ → A) → ℤ → A → ℤ → A
put m fd a g = if eqb_ℤ g fd then a else m g

-- `udata[fd] = w`
unfoldable pub set_udata : ℤ → Option ℕ → Udata → Udata
set_udata fd w u = record u { at = put u.at fd w }

-- The `if` that resizes the vector; the new cells are null.
unfoldable pub make_room : ℤ → Udata → Udata
make_room fd u =
    if leb u.size (pos_part fd)
    then record {
      size = pos_part fd + 1;
      at = λ g. if ltb (pos_part g) u.size then u.at g else none;
    }
    else u

unfoldable pub max_of : ℤ → ℤ → ℤ
max_of a b = if ltb_ℤ a b then b else a

-- The four lines for one direction in add_fd_watch and add_bidi_fd_watch.
unfoldable pub add_read : ℤ → ℕ → Select → Select
unfolding set_udata make_room
add_read fd userdata s = record s {
  read_set = put s.read_set fd true;
  rd_udata = set_udata fd (some userdata) (make_room fd s.rd_udata);
}

unfoldable pub add_write : ℤ → ℕ → Select → Select
unfolding set_udata make_room
add_write fd userdata s = record s {
  write_set = put s.write_set fd true;
  wr_udata = set_udata fd (some userdata) (make_room fd s.wr_udata);
}

abbrev pub do_if : Bool → (Select → Select) → Select → Select
do_if true f s = f s
do_if false f s = s

-- if (flags & IN_EVENTS) f else g
abbrev pub by_direction : Bool → (Select → Select) → (Select → Select) → Select → Select
by_direction true f g s = f s
by_direction false f g s = g s

unfoldable pub raise_max : ℤ → Select → Select
unfolding max_of
raise_max fd s = record s { max_fd = max_of fd s.max_fd }

-- by whether the descriptor is too large; `none` if the function throws
unfoldable pub add_watch : Bool → ℤ → ℕ → Mask → Select → Select × Option Bool
unfolding add_read add_write raise_max
add_watch true fd userdata flags s = (s, none)
add_watch false fd userdata flags s = (
  raise_max fd (
      by_direction (has_any (bit_and flags in_events)) (add_read fd userdata)
        (add_write fd userdata) s),
  some true,
)

-- The parameter `enabled` is not used: the watch is enabled.
unfoldable pub add_fd_watch : ℤ → ℤ → ℕ → Mask → Bool → Bool → Select → Select × Option Bool
unfolding add_watch
add_fd_watch fd_setsize fd userdata flags enabled soft_fail s =
    add_watch (not (ltb_ℤ fd fd_setsize)) fd userdata flags s

unfoldable pub add_bidi_watch : Bool → ℤ → ℕ → Mask → Select → Select × Option Mask
unfolding add_read add_write raise_max
add_bidi_watch true fd userdata flags s = (s, none)
add_bidi_watch false fd userdata flags s =
    let s1 = do_if (has_any (bit_and flags in_events)) (add_read fd userdata) s in
    let s2 = do_if (has_any (bit_and flags out_events)) (add_write fd userdata) s1 in
    (raise_max fd s2, some no_events)

unfoldable pub add_bidi_fd_watch : ℤ → ℤ → ℕ → Mask → Bool → Select → Select × Option Mask
unfolding add_bidi_watch
add_bidi_fd_watch fd_setsize fd userdata flags emulate s =
    add_bidi_watch (not (ltb_ℤ fd fd_setsize)) fd userdata flags s

unfoldable pub clear_read : ℤ → Select → Select
clear_read fd s = record s { read_set = put s.read_set fd false }

unfoldable pub clear_write : ℤ → Select → Select
clear_write fd s = record s { write_set = put s.write_set fd false }

unfoldable pub remove_read : ℤ → Select → Select
unfolding clear_read set_udata
remove_read fd s = record (clear_read fd s) { rd_udata = set_udata fd none s.rd_udata }

unfoldable pub remove_write : ℤ → Select → Select
unfolding clear_write set_udata
remove_write fd s = record (clear_write fd s) { wr_udata = set_udata fd none s.wr_udata }

unfoldable pub remove_fd_watch_nolock : ℤ → Mask → Select → Select
unfolding remove_read remove_write
remove_fd_watch_nolock fd flags s =
    do_if (has_any (bit_and flags out_events)) (remove_write fd)
      (do_if (has_any (bit_and flags in_events)) (remove_read fd) s)

unfoldable pub remove_bidi_fd_watch : ℤ → Select → Select
unfolding clear_read clear_write
remove_bidi_fd_watch fd s = clear_write fd (clear_read fd s)

unfoldable pub set_read : ℤ → Select → Select
set_read fd s = record s { read_set = put s.read_set fd true }

unfoldable pub set_write : ℤ → Select → Select
set_write fd s = record s { write_set = put s.write_set fd true }

unfoldable pub enable_fd_watch_nolock : ℤ → ℕ → Mask → Select → Select
unfolding set_read set_write
enable_fd_watch_nolock fd userdata flags s =
    by_direction (has_any (bit_and flags in_events)) (set_read fd) (set_write fd) s

unfoldable pub disable_fd_watch_nolock : ℤ → Mask → Select → Select
unfolding clear_read clear_write
disable_fd_watch_nolock fd flags s =
    by_direction (has_any (bit_and flags in_events)) (clear_read fd) (clear_write fd) s

-- The functions that select_events takes from its base classes, one of which is signal_events.
pub record BaseEvents : Type 0 where
  pub interrupt_after_signal_add : Bool
  pub rearm_signal_watch_nolock : ℕ → ℕ → Select → Select
  pub remove_signal_watch_nolock : ℕ → Select → Select
  pub unreserve_child_watch_nolock : ℕ → Select → Select
  pub enable_timer_nolock : ℕ → Bool → ClockType → Select → Select × Option ℕ
  pub remove_timer_nolock : ℕ → ClockType → Select → Select
  pub interrupt_wait : Select → Select
  pub add_signal_watch_nolock : ℕ → ℕ → Select → Select × Bool
  pub reserve_child_watch_nolock : ℕ → Select → Select × Bool
  pub add_child_watch_nolock : ℕ → ℕ → Select → Select × Bool
  pub add_timer_nolock : ℕ → ClockType → Select → Select × Bool

-- What an event loop uses of select_events.
unfoldable pub select_mechanism : BaseEvents → Mechanism Select
select_mechanism base = record {
  has_separate_rw_fd_watches = true;
  interrupt_after_fd_add = true;
  interrupt_after_signal_add = base.interrupt_after_signal_add;
  enable_fd_watch_nolock = enable_fd_watch_nolock;
  disable_fd_watch_nolock = disable_fd_watch_nolock;
  remove_fd_watch_nolock = remove_fd_watch_nolock;
  rearm_signal_watch_nolock = base.rearm_signal_watch_nolock;
  remove_signal_watch_nolock = base.remove_signal_watch_nolock;
  unreserve_child_watch_nolock = base.unreserve_child_watch_nolock;
  enable_timer_nolock = base.enable_timer_nolock;
  remove_timer_nolock = base.remove_timer_nolock;
  interrupt_wait = base.interrupt_wait;
}

unfoldable pub select_registry : ℤ → BaseEvents → Registry Select
select_registry fd_setsize base = record {
  add_signal_watch_nolock = base.add_signal_watch_nolock;
  add_fd_watch = add_fd_watch fd_setsize;
  add_bidi_fd_watch = add_bidi_fd_watch fd_setsize;
  reserve_child_watch_nolock = base.reserve_child_watch_nolock;
  add_child_watch_nolock = base.add_child_watch_nolock;
  add_timer_nolock = base.add_timer_nolock;
}
