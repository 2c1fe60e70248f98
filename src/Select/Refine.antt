-- ===== src/Select/Refine.antt =====
-- select_events is a mechanism with separate watches.
use dasynq.Prelude.{◌≡◌, refl, Bool, true, false, not, ◌&&◌, ◌||◌, arith}
use dasynq.Prelude.Int.{ℤ, eqb_ℤ}
use dasynq.Flags.{has_any-in, has_any-out}
use dasynq.EventLoop.Armed.{IsMechanism}
use dasynq.Select.Defs.{
  Select, BaseEvents, select_mechanism, by_direction, do_if, put, set_read, set_write, clear_read,
  clear_write, remove_read, remove_write, enable_fd_watch_nolock, disable_fd_watch_nolock,
  remove_fd_watch_nolock,
}

abbrev pub reads : Select → ℤ → Bool
reads s fd = s.read_set fd

abbrev pub writes : Select → ℤ → Bool
writes s fd = s.write_set fd

put-same : {A : Type 0} (m : ℤ → A) (fd : ℤ) (a : A) → put m fd a fd ≡ a
put-same m fd a = let same : eqb_ℤ fd fd ≡ true = ground arith in rw same refl

module _ (fd : ℤ) (s : Select) where
  enable-by :
      (inp out : Bool)
      → out ≡ not inp
      → let r = by_direction inp (set_read fd) (set_write fd) s in
        (reads r fd ≡ (reads s fd || inp)) × (writes r fd ≡ (writes s fd || out))
  unfolding set_read set_write
  enable-by true out e = (ground (arith, put-same s.read_set fd true), ground (arith, e))
  enable-by false out e = (ground arith, ground (arith, e, put-same s.write_set fd true))

  disable-by :
      (inp out : Bool)
      → out ≡ not inp
      → let r = by_direction inp (clear_read fd) (clear_write fd) s in
        (reads r fd ≡ (reads s fd && not inp)) × (writes r fd ≡ (writes s fd && not out))
  unfolding clear_read clear_write
  disable-by true out e = (ground (arith, put-same s.read_set fd false), ground (arith, e))
  disable-by false out e = (ground arith, ground (arith, e, put-same s.write_set fd false))

  remove-by :
      (inp out : Bool)
      → let r = do_if out (remove_write fd) (do_if inp (remove_read fd) s) in
        (reads r fd ≡ (reads s fd && not inp)) × (writes r fd ≡ (writes s fd && not out))
  unfolding remove_read remove_write clear_read clear_write
  remove-by inp out =
      (ground (arith, put-same s.read_set fd false), ground (arith, put-same s.write_set fd false))

-- If interrupt_wait of the base classes leaves the two sets alone, select_events is a mechanism with separate
-- watches, whose watched directions are those in its sets of descriptors.
pub select_events-IsMechanism :
    (base : BaseEvents)
    → ((s : Select) (fd : ℤ)
        → (reads (base.interrupt_wait s) fd ≡ reads s fd)
          × (writes (base.interrupt_wait s) fd ≡ writes s fd))
    → IsMechanism (select_mechanism base) reads writes
unfolding select_mechanism enable_fd_watch_nolock disable_fd_watch_nolock remove_fd_watch_nolock
select_events-IsMechanism base quiet = record {
  registered = λ s fd. true;
  enable_joint = λ fd w flags s joint reg. absurd (ground (arith, joint));
  enable_separate = λ fd w flags s separate way.
      rw (has_any-in flags) (enable-by fd s flags.bit_1 flags.bit_2 way);
  disable_joint = λ fd flags s joint. absurd (ground (arith, joint));
  disable_separate = λ fd flags s separate way.
      rw (has_any-in flags) (disable-by fd s flags.bit_1 flags.bit_2 way);
  remove_joint = λ fd flags s joint. absurd (ground (arith, joint));
  remove_separate = λ fd flags s separate.
      rw (has_any-in flags, has_any-out flags) (remove-by fd s flags.bit_1 flags.bit_2);
  interrupts = λ fd s. quiet s fd;
}
