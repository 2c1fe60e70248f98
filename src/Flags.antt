-- ===== src/Flags.antt =====
-- include/dasynq/flags.h, with the flag multi_watch of include/dasynq/basewatchers.h: the bits of the event
-- and watch masks. An `int` mask is a record of its four bits; no other bit is used. Bit 4 is ERR_EVENTS in
-- a mask of events, and multi_watch in the `watch_flags` of a watcher.
use dasynq.Prelude.{Bool, true, false, not, ◌&&◌, ◌||◌, ◌≡◌, arith}

pub record Mask : Type 0 where
  pub bit_1 : Bool
  pub bit_2 : Bool
  pub bit_4 : Bool
  pub bit_8 : Bool

abbrev pub no_events : Mask
no_events = record { bit_1 = false; bit_2 = false; bit_4 = false; bit_8 = false }

abbrev pub in_events : Mask
in_events = record no_events { bit_1 = true }

abbrev pub out_events : Mask
out_events = record no_events { bit_2 = true }

abbrev pub err_events : Mask
err_events = record no_events { bit_4 = true }

abbrev pub one_shot : Mask
one_shot = record no_events { bit_8 = true }

abbrev pub io_events : Mask
io_events = record no_events { bit_1 = true; bit_2 = true }

abbrev pub multi_watch : Mask
multi_watch = record no_events { bit_4 = true }

-- enum class clock_type
pub data ClockType : Type 0 where
  system monotonic : ClockType

-- a | b, a & b, a & ~b and a != 0
abbrev pub bit_or : Mask → Mask → Mask
bit_or a b = record {
  bit_1 = a.bit_1 || b.bit_1;
  bit_2 = a.bit_2 || b.bit_2;
  bit_4 = a.bit_4 || b.bit_4;
  bit_8 = a.bit_8 || b.bit_8;
}

abbrev pub bit_and : Mask → Mask → Mask
bit_and a b = record {
  bit_1 = a.bit_1 && b.bit_1;
  bit_2 = a.bit_2 && b.bit_2;
  bit_4 = a.bit_4 && b.bit_4;
  bit_8 = a.bit_8 && b.bit_8;
}

abbrev pub clear : Mask → Mask → Mask
clear a b = record {
  bit_1 = a.bit_1 && not b.bit_1;
  bit_2 = a.bit_2 && not b.bit_2;
  bit_4 = a.bit_4 && not b.bit_4;
  bit_8 = a.bit_8 && not b.bit_8;
}

abbrev pub has_any : Mask → Bool
has_any a = a.bit_1 || (a.bit_2 || (a.bit_4 || a.bit_8))

-- The tests of single bits.
pub has_any-in : (m : Mask) → has_any (bit_and m in_events) ≡ m.bit_1
has_any-in m = ground arith

pub has_any-out : (m : Mask) → has_any (bit_and m out_events) ≡ m.bit_2
has_any-out m = ground arith

pub has_any-multi : (m : Mask) → has_any (bit_and m multi_watch) ≡ m.bit_4
has_any-multi m = ground arith

pub has_any-io : (m : Mask) → has_any (bit_and m io_events) ≡ (m.bit_1 || m.bit_2)
has_any-io m = ground arith
