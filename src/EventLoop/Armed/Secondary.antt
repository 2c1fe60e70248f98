-- ===== src/EventLoop/Armed/Secondary.antt =====
-- process_secondary_rearm of a bidi watcher that is not emulated.
use dasynq.Prelude.{
  subst, ℕ, ◌≡◌, refl, sym, ◌∙◌, Bool, true, false, not, ◌&&◌, if◌then◌else◌, arith,
}
use dasynq.Prelude.Int.{ℤ}
use dasynq.Flags.{bit_or, one_shot, out_events, one_shot, no_events, bit_or, has_any-out}
use dasynq.Watcher.{out_watcher, Watcher, Rearm}
use dasynq.Dispatch.Defs.{mark_write_removed, drop_watches}
use dasynq.EventLoop.Defs.{Mechanism, Loop, on_watcher}
use dasynq.EventLoop.Rearm.{
  at, add_watches, end_secondary, remove_separate, remove_secondary, secondary_remove,
  secondary_rearm, process_secondary_rearm,
}
use dasynq.EventLoop.Armed.{IsMechanism}
use dasynq.EventLoop.Armed.Halves.{
  IsArmed, Rearmed, turns, is_remove, returns, at-on_watcher, followed-Rearmed, Arms-Rearmed,
  set_flags-Arms, rearm_half-Arms, disarm_half-Arms, remove_fd-Arms, remove_fd-ends,
}

module _ {M : Type 0} (m : Mechanism M) (reads writes : M → ℤ → Bool) where
  -- What process_secondary_rearm leaves of the watcher `x` for the value `v`, by whether both halves are removed
  -- and the mechanism, without separate watches, gives up the descriptor.
  abbrev pub OnOutput : Bool → Rearm → ℕ → Watcher → Loop M → Type 0
  OnOutput ends v w x r =
      Rearmed m reads writes w x.watch_fd (not ends && x.watch_flags.bit_1)
        (not ends && turns v x.watch_flags.bit_2) x.watch_flags.bit_1
        (if ends then x.watch_flags.bit_2 else turns v x.watch_flags.bit_2) r

  module _ (v : IsMechanism m reads writes) (w : ℕ) (l : Loop M) (a : IsArmed m reads writes w l)
      (reg : v.registered l.loop_mech (at l w).watch_fd ≡ true) where
    quiet : OnOutput false Rearm.noop w (at l w) l
    quiet = record { same_fd = refl; reading = a.0; writing = a.1; in_flag = refl; out_flag = refl }

    secondary_rearms :
        OnOutput false Rearm.rearm w (at l w) (secondary_rearm m false w Rearm.rearm l).0
    unfolding secondary_rearm add_watches
    secondary_rearms =
        let f = add_watches out_events in
        let e = at-on_watcher m reads writes w f l in
        followed-Rearmed m reads writes w f _ _ l _ refl (ground arith) (ground arith) (
          rearm_half-Arms m reads writes v w (on_watcher w f l) (bit_or out_events one_shot) _ refl
            refl (rw e reg) (rw (e, a.0) (ground arith)) (rw (e, a.1) (ground arith)))

    secondary_disarms :
        OnOutput false Rearm.disarm w (at l w) (secondary_rearm m false w Rearm.disarm l).0
    unfolding secondary_rearm drop_watches
    secondary_disarms =
        let f = drop_watches out_events in
        let e = at-on_watcher m reads writes w f l in
        followed-Rearmed m reads writes w f _ _ l _ refl (ground arith) (ground arith) (
          disarm_half-Arms m reads writes v w (on_watcher w f l) out_events _ _ refl refl (rw e reg)
            (rw (e, a.0) (ground arith)) (rw (e, a.1) (ground arith)) (ground arith) (ground arith))

    -- REMOVE of the secondary half, if the mechanism has separate watches
    removes_separate :
        (other : Bool)
        → m.has_separate_rw_fd_watches ≡ true
        → OnOutput false Rearm.remove w (at l w) (remove_separate m false w out_events other l).0
    unfolding remove_separate drop_watches
    removes_separate other s =
        let f = drop_watches out_events in
        let e = at-on_watcher m reads writes w f l in
        followed-Rearmed m reads writes w f _ _ l _ refl (ground arith) (ground arith) (
          remove_fd-Arms m reads writes v w (on_watcher w f l) out_events s
            (rw (e, a.0) (ground arith)) (rw (e, a.1) (ground arith)))

    -- if it has not, and the other half is not removed
    ends_secondary :
        (b : Bool)
        → m.has_separate_rw_fd_watches ≡ false
        → (at l w).watch_flags.bit_2 ≡ b
        → OnOutput false Rearm.remove w (at l w) (end_secondary m b w l)
    unfolding end_secondary drop_watches
    ends_secondary false s e = record {
      same_fd = refl;
      reading = a.0;
      writing = a.1 ∙ e;
      in_flag = refl;
      out_flag = e;
    }
    ends_secondary true s e =
        let f = drop_watches out_events in
        let e = at-on_watcher m reads writes w f l in
        followed-Rearmed m reads writes w f _ _ l _ refl (ground arith) (ground arith) (
          set_flags-Arms m reads writes v w (on_watcher w f l) _ s (rw e reg) (ground arith)
            (ground arith))

    removes_joint :
        (other : Bool)
        → m.has_separate_rw_fd_watches ≡ false
        → OnOutput other Rearm.remove w (at l w) (remove_secondary m w other l).0
          × ((remove_secondary m w other l).1 ≡ returns Rearm.remove other)
    unfolding remove_secondary
    removes_joint true s = (
      Arms-Rearmed m reads writes w _ _ _ l _ (remove_fd-ends m reads writes v w l no_events s)
          refl,
      refl,
    )
    removes_joint false s = (ends_secondary _ s (sym (has_any-out (at l w).watch_flags)), refl)

    removes :
        (separate : Bool)
        → m.has_separate_rw_fd_watches ≡ separate
        → OnOutput
            (not separate && (at l w).read_removed)
            Rearm.remove
            w
            (at l w)
            (secondary_remove m separate w l).0
          × ((secondary_remove m separate w l).1 ≡ returns Rearm.remove (at l w).read_removed)
    unfolding secondary_remove remove_separate
    removes true s = (removes_separate (at l w).read_removed s, refl)
    removes false s = removes_joint _ s

  module _ (v : IsMechanism m reads writes) (w : ℕ) (l : Loop M) (a : IsArmed m reads writes w l)
      (reg : v.registered l.loop_mech (at l w).watch_fd ≡ true) where
    -- mark_write_removed changes none of this
    marked-IsArmed : IsArmed m reads writes w (on_watcher w mark_write_removed l)
    unfolding mark_write_removed
    marked-IsArmed = rw (at-on_watcher m reads writes w mark_write_removed l) (a.0, a.1)

    marked_registered :
        let l' = on_watcher w mark_write_removed l in
        v.registered l'.loop_mech (at l' w).watch_fd ≡ true
    unfolding mark_write_removed
    marked_registered = rw (at-on_watcher m reads writes w mark_write_removed l) reg

    removes_marked :
        let r =
          secondary_remove m m.has_separate_rw_fd_watches w (on_watcher w mark_write_removed l) in
        let ends = not m.has_separate_rw_fd_watches && (at l w).read_removed in
        OnOutput ends Rearm.remove w (at l w) r.0
        × (r.1 ≡ returns Rearm.remove (at l w).read_removed)
    unfolding mark_write_removed
    removes_marked =
        let r =
          secondary_remove m m.has_separate_rw_fd_watches w (on_watcher w mark_write_removed l) in
        subst
          (λ (x : Watcher).
            OnOutput (not m.has_separate_rw_fd_watches && x.read_removed) Rearm.remove w x r.0
            × (r.1 ≡ returns Rearm.remove x.read_removed))
          (at-on_watcher m reads writes w mark_write_removed l)
          (removes v w (on_watcher w mark_write_removed l) marked-IsArmed marked_registered _ refl)

    secondary_rearm-Rearmed :
        (x : Rearm) (emulated : Bool)
        → emulated ≡ false
        → let r = secondary_rearm m emulated w x l in
          OnOutput
            (is_remove x && (not m.has_separate_rw_fd_watches && (at l w).read_removed))
            x
            w
            (at l w)
            r.0
          × (r.1 ≡ returns x (at l w).read_removed)
    unfolding secondary_rearm
    secondary_rearm-Rearmed x true e = absurd (ground arith)
    secondary_rearm-Rearmed Rearm.rearm false e = (secondary_rearms v w l a reg, refl)
    secondary_rearm-Rearmed Rearm.disarm false e = (secondary_disarms v w l a reg, refl)
    secondary_rearm-Rearmed Rearm.remove false e = removes_marked
    secondary_rearm-Rearmed Rearm.noop false e = (quiet v w l a reg, refl)
    secondary_rearm-Rearmed Rearm.removed false e = (quiet v w l a reg, refl)
    secondary_rearm-Rearmed Rearm.requeue false e = (quiet v w l a reg, refl)

  -- After process_secondary_rearm, for any value `x` that the callback of the secondary half of a bidi watcher
  -- returned, if that half is not emulated, the descriptor is registered and the mechanism watches the directions in the
  -- watch flags: the
  -- output direction is watched after REARM, not after DISARM or REMOVE, and as before otherwise; the input
  -- direction is watched as before. The watch flags say the same. Only if `x` is REMOVE, the input half is
  -- removed too and the mechanism has no separate watches, neither direction is watched, and the flags stay.
  -- The result is REMOVE only if both halves are removed, NOOP if only this one is, and `x` otherwise.
  pub process_secondary_rearm-Rearmed :
      (w : ℕ) (x : Rearm) (l : Loop M)
      → (v : IsMechanism m reads writes) → IsArmed m reads writes w l
      → v.registered l.loop_mech (at l w).watch_fd ≡ true
      → (at l (out_watcher w)).emulatefd ≡ false
      → let r = process_secondary_rearm m w x l in
        OnOutput
          (is_remove x && (not m.has_separate_rw_fd_watches && (at l w).read_removed))
          x
          w
          (at l w)
          r.0
        × (r.1 ≡ returns x (at l w).read_removed)
  unfolding process_secondary_rearm
  process_secondary_rearm-Rearmed w x l v a reg e = secondary_rearm-Rearmed v w l a reg x _ e
