-- ===== src/EventLoop/Armed.antt =====
-- Which directions of a descriptor the mechanism watches, after the functions that enable and disable them.
pub mod Halves
pub mod Primary
pub mod Secondary
use dasynq.Prelude.{
  ℕ, ◌≡◌, refl, ◌∙◌, Bool, true, false, not, ◌&&◌, ◌||◌, if◌then◌else◌, arith, Bool-cases, inl, inr,
}
use dasynq.Prelude.Int.{ℤ}
use dasynq.Flags.{Mask, in_events, out_events, io_events, one_shot, bit_or, bit_and}
use dasynq.Watcher.{Watcher}
use dasynq.AttnLock.{interrupt_if_necessary}
use dasynq.EventLoop.Defs.{
  Mechanism, Loop, interrupt, interrupt_after, set_fd_enabled_nolock, on_mech,
}
use dasynq.EventLoop.Rearm.{at, enable_io, disable, remove_fd}

-- a mask with exactly one direction
abbrev pub IsOneWay : Mask → Type 0
IsOneWay flags = flags.bit_2 ≡ not flags.bit_1

-- What a mechanism promises: `reads` and `writes` say which directions of a descriptor it watches. If it has
-- separate watches, the functions change the given directions, and only one is given at a time to those that
-- enable and disable; otherwise a call that enables sets both directions of a descriptor that is registered,
-- and one that disables or removes ends both. The functions in Epoll and Select keep these promises.
pub record IsMechanism {M : Type 0} (m : Mechanism M) (reads writes : M → ℤ → Bool) : Type 0 where
  pub registered : M → ℤ → Bool
  pub enable_joint :
      (fd : ℤ) (w : ℕ) (flags : Mask) (s : M)
      → m.has_separate_rw_fd_watches ≡ false
      → registered s fd ≡ true
      → (reads (m.enable_fd_watch_nolock fd w flags s) fd ≡ flags.bit_1)
        × (writes (m.enable_fd_watch_nolock fd w flags s) fd ≡ flags.bit_2)
  pub enable_separate :
      (fd : ℤ) (w : ℕ) (flags : Mask) (s : M)
      → m.has_separate_rw_fd_watches ≡ true
      → IsOneWay flags
      → (reads (m.enable_fd_watch_nolock fd w flags s) fd ≡ (reads s fd || flags.bit_1))
        × (writes (m.enable_fd_watch_nolock fd w flags s) fd ≡ (writes s fd || flags.bit_2))
  pub disable_joint :
      (fd : ℤ) (flags : Mask) (s : M)
      → m.has_separate_rw_fd_watches ≡ false
      → (reads (m.disable_fd_watch_nolock fd flags s) fd ≡ false)
        × (writes (m.disable_fd_watch_nolock fd flags s) fd ≡ false)
  pub disable_separate :
      (fd : ℤ) (flags : Mask) (s : M)
      → m.has_separate_rw_fd_watches ≡ true
      → IsOneWay flags
      → (reads (m.disable_fd_watch_nolock fd flags s) fd ≡ (reads s fd && not flags.bit_1))
        × (writes (m.disable_fd_watch_nolock fd flags s) fd ≡ (writes s fd && not flags.bit_2))
  pub remove_joint :
      (fd : ℤ) (flags : Mask) (s : M)
      → m.has_separate_rw_fd_watches ≡ false
      → (reads (m.remove_fd_watch_nolock fd flags s) fd ≡ false)
        × (writes (m.remove_fd_watch_nolock fd flags s) fd ≡ false)
  pub remove_separate :
      (fd : ℤ) (flags : Mask) (s : M)
      → m.has_separate_rw_fd_watches ≡ true
      → (reads (m.remove_fd_watch_nolock fd flags s) fd ≡ (reads s fd && not flags.bit_1))
        × (writes (m.remove_fd_watch_nolock fd flags s) fd ≡ (writes s fd && not flags.bit_2))
  pub interrupts :
      (fd : ℤ) (s : M)
      → (reads (m.interrupt_wait s) fd ≡ reads s fd)
        × (writes (m.interrupt_wait s) fd ≡ writes s fd)

module _ {M : Type 0} (m : Mechanism M) (reads writes : M → ℤ → Bool) where
  -- The dispatch part is as before, and the directions of `fd` are `rd` and `wr`.
  pub record Arms (fd : ℤ) (rd wr : Bool) (l r : Loop M) : Type 0 where
    pub same : r.dispatch ≡ l.dispatch
    pub reading : reads r.loop_mech fd ≡ rd
    pub writing : writes r.loop_mech fd ≡ wr

  module _ (v : IsMechanism m reads writes) where
    interrupt_after-Arms :
        (b : Bool) (fd : ℤ) (l : Loop M)
        → Arms fd (reads l.loop_mech fd) (writes l.loop_mech fd) l (interrupt_after m b l)
    unfolding interrupt_after interrupt
    interrupt_after-Arms false fd l = record { same = refl; reading = refl; writing = refl }
    interrupt_after-Arms true fd l = elim (Bool-cases (interrupt_if_necessary l.waits)) [
      | inl e ↦
          rw (e, interrupt)
            record {
              same = refl;
              reading = (v.interrupts fd l.loop_mech).0;
              writing = (v.interrupts fd l.loop_mech).1;
            }
      | inr e ↦ rw (e, interrupt) record { same = refl; reading = refl; writing = refl }
    ]

    pub set_fd_enabled_nolock-joint :
        (b : Bool) (w : ℕ) (fd : ℤ) (flags : Mask) (l : Loop M)
        → m.has_separate_rw_fd_watches ≡ false
        → v.registered l.loop_mech fd ≡ true
        → Arms fd (b && flags.bit_1) (b && flags.bit_2) l (set_fd_enabled_nolock m w fd flags b l)
    unfolding set_fd_enabled_nolock
    set_fd_enabled_nolock-joint true w fd flags l joint reg =
        let e = v.enable_joint fd w (bit_or flags one_shot) l.loop_mech joint reg in
        let i =
          interrupt_after-Arms m.interrupt_after_fd_add fd
            (on_mech (m.enable_fd_watch_nolock fd w (bit_or flags one_shot)) l) in
        record {
          same = i.same;
          reading = ground (arith, i.reading, e.0);
          writing = ground (arith, i.writing, e.1);
        }
    set_fd_enabled_nolock-joint false w fd flags l joint reg =
        let e = v.disable_joint fd flags l.loop_mech joint in
        record { same = refl; reading = e.0; writing = e.1 }

    pub set_fd_enabled_nolock-separate :
        (w : ℕ) (fd : ℤ) (flags : Mask) (l : Loop M)
        → m.has_separate_rw_fd_watches ≡ true
        → IsOneWay flags
        → Arms fd
            (reads l.loop_mech fd || flags.bit_1)
            (writes l.loop_mech fd || flags.bit_2)
            l
            (set_fd_enabled_nolock m w fd flags true l)
    unfolding set_fd_enabled_nolock
    set_fd_enabled_nolock-separate w fd flags l separate way =
        let e =
          v.enable_separate fd w (bit_or flags one_shot) l.loop_mech separate
            (ground (arith, way)) in
        let i =
          interrupt_after-Arms m.interrupt_after_fd_add fd
            (on_mech (m.enable_fd_watch_nolock fd w (bit_or flags one_shot)) l) in
        record {
          same = i.same;
          reading = ground (arith, i.reading, e.0);
          writing = ground (arith, i.writing, e.1);
        }
