-- ===== src/EventLoop/Armed/Primary.antt =====
-- process_primary_rearm of a bidi watcher that is not emulated.
use dasynq.Prelude.{
  subst, ℕ, ◌≡◌, refl, sym, ◌∙◌, Bool, true, false, not, ◌&&◌, if◌then◌else◌, arith,
}
use dasynq.Prelude.Int.{ℤ}
use dasynq.Flags.{in_events, no_events, has_any-in}
use dasynq.Watcher.{Watcher, Rearm}
use dasynq.Dispatch.Defs.{mark_read_removed, drop_watches}
use dasynq.EventLoop.Defs.{Mechanism, Loop, on_watcher}
use dasynq.EventLoop.Rearm.{
  at, add_watches, end_primary, remove_separate, remove_primary, primary_remove, primary_rearm,
  process_primary_rearm,
}
use dasynq.EventLoop.Armed.{IsMechanism}
use dasynq.EventLoop.Armed.Halves.{
  IsArmed, Rearmed, turns, is_remove, returns, at-on_watcher, followed-Rearmed, Arms-Rearmed,
  set_flags-Arms, rearm_half-Arms, disarm_half-Arms, remove_fd-Arms, remove_fd-ends,
}

module _ {M : Type 0} (m : Mechanism M) (reads writes : M → ℤ → Bool) where
  -- What process_primary_rearm leaves of the watcher `x` for the value `v`, by whether both halves are removed
  -- and the mechanism, without separate watches, gives up the descriptor.
  abbrev pub OnInput : Bool → Rearm → ℕ → Watcher → Loop M → Type 0
  OnInput ends v w x r =
      Rearmed m reads writes w x.watch_fd (not ends && turns v x.watch_flags.bit_1)
        (not ends && x.watch_flags.bit_2)
        (if ends then x.watch_flags.bit_1 else turns v x.watch_flags.bit_1) x.watch_flags.bit_2 r

  module _ (v : IsMechanism m reads writes) (w : ℕ) (l : Loop M) (a : IsArmed m reads writes w l)
      (reg : v.registered l.loop_mech (at l w).watch_fd ≡ true) where
    quiet : OnInput false Rearm.noop w (at l w) l
    quiet = record { same_fd = refl; reading = a.0; writing = a.1; in_flag = refl; out_flag = refl }

    primary_rearms : OnInput false Rearm.rearm w (at l w) (primary_rearm m false w Rearm.rearm l).0
    unfolding primary_rearm add_watches
    primary_rearms =
        let f = add_watches in_events in
        let e = at-on_watcher m reads writes w f l in
        followed-Rearmed m reads writes w f _ _ l _ refl (ground arith) (ground arith) (
          rearm_half-Arms m reads writes v w (on_watcher w f l) in_events _ refl refl (rw e reg)
            (rw (e, a.0) (ground arith)) (rw (e, a.1) (ground arith)))

    primary_disarms :
        OnInput false Rearm.disarm w (at l w) (primary_rearm m false w Rearm.disarm l).0
    unfolding primary_rearm drop_watches
    primary_disarms =
        let f = drop_watches in_events in
        let e = at-on_watcher m reads writes w f l in
        followed-Rearmed m reads writes w f _ _ l _ refl (ground arith) (ground arith) (
          disarm_half-Arms m reads writes v w (on_watcher w f l) in_events _ _ refl refl (rw e reg)
            (rw (e, a.0) (ground arith)) (rw (e, a.1) (ground arith)) (ground arith) (ground arith))

    -- REMOVE of the primary half, if the mechanism has separate watches
    removes_separate :
        (other : Bool)
        → m.has_separate_rw_fd_watches ≡ true
        → OnInput false Rearm.remove w (at l w) (remove_separate m false w in_events other l).0
    unfolding remove_separate drop_watches
    removes_separate other s =
        let f = drop_watches in_events in
        let e = at-on_watcher m reads writes w f l in
        followed-Rearmed m reads writes w f _ _ l _ refl (ground arith) (ground arith) (
          remove_fd-Arms m reads writes v w (on_watcher w f l) in_events s
            (rw (e, a.0) (ground arith)) (rw (e, a.1) (ground arith)))

    -- if it has not, and the other half is not removed
    ends_primary :
        (b : Bool)
        → m.has_separate_rw_fd_watches ≡ false
        → (at l w).watch_flags.bit_1 ≡ b
        → OnInput false Rearm.remove w (at l w) (end_primary m b false w l)
    unfolding end_primary drop_watches
    ends_primary false s e = record {
      same_fd = refl;
      reading = a.0 ∙ e;
      writing = a.1;
      in_flag = e;
      out_flag = refl;
    }
    ends_primary true s e =
        let f = drop_watches in_events in
        let e = at-on_watcher m reads writes w f l in
        followed-Rearmed m reads writes w f _ _ l _ refl (ground arith) (ground arith) (
          set_flags-Arms m reads writes v w (on_watcher w f l) _ s (rw e reg) (ground arith)
            (ground arith))

    removes_joint :
        (other : Bool)
        → m.has_separate_rw_fd_watches ≡ false
        → OnInput other Rearm.remove w (at l w) (remove_primary m false w other l).0
          × ((remove_primary m false w other l).1 ≡ returns Rearm.remove other)
    unfolding remove_primary
    removes_joint true s = (
      Arms-Rearmed m reads writes w _ _ _ l _ (remove_fd-ends m reads writes v w l no_events s)
          refl,
      refl,
    )
    removes_joint false s = (ends_primary _ s (sym (has_any-in (at l w).watch_flags)), refl)

    removes :
        (separate : Bool)
        → m.has_separate_rw_fd_watches ≡ separate
        → OnInput
            (not separate && (at l w).write_removed)
            Rearm.remove
            w
            (at l w)
            (primary_remove m separate false w l).0
          × ((primary_remove m separate false w l).1 ≡ returns Rearm.remove (at l w).write_removed)
    unfolding primary_remove remove_separate
    removes true s = (removes_separate (at l w).write_removed s, refl)
    removes false s = removes_joint _ s

  module _ (v : IsMechanism m reads writes) (w : ℕ) (l : Loop M) (a : IsArmed m reads writes w l)
      (reg : v.registered l.loop_mech (at l w).watch_fd ≡ true) where
    -- mark_read_removed changes none of this
    marked-IsArmed : IsArmed m reads writes w (on_watcher w mark_read_removed l)
    unfolding mark_read_removed
    marked-IsArmed = rw (at-on_watcher m reads writes w mark_read_removed l) (a.0, a.1)

    marked_registered :
        let l' = on_watcher w mark_read_removed l in
        v.registered l'.loop_mech (at l' w).watch_fd ≡ true
    unfolding mark_read_removed
    marked_registered = rw (at-on_watcher m reads writes w mark_read_removed l) reg

    removes_marked :
        let r =
          primary_remove m m.has_separate_rw_fd_watches false w
            (on_watcher w mark_read_removed l) in
        let ends = not m.has_separate_rw_fd_watches && (at l w).write_removed in
        OnInput ends Rearm.remove w (at l w) r.0
        × (r.1 ≡ returns Rearm.remove (at l w).write_removed)
    unfolding mark_read_removed
    removes_marked =
        let r =
          primary_remove m m.has_separate_rw_fd_watches false w
            (on_watcher w mark_read_removed l) in
        subst
          (λ (x : Watcher).
            OnInput (not m.has_separate_rw_fd_watches && x.write_removed) Rearm.remove w x r.0
            × (r.1 ≡ returns Rearm.remove x.write_removed))
          (at-on_watcher m reads writes w mark_read_removed l)
          (removes v w (on_watcher w mark_read_removed l) marked-IsArmed marked_registered _ refl)

    primary_rearm-Rearmed :
        (x : Rearm) (emulated : Bool)
        → emulated ≡ false
        → let r = primary_rearm m emulated w x l in
          OnInput
            (is_remove x && (not m.has_separate_rw_fd_watches && (at l w).write_removed))
            x
            w
            (at l w)
            r.0
          × (r.1 ≡ returns x (at l w).write_removed)
    unfolding primary_rearm
    primary_rearm-Rearmed x true e = absurd (ground arith)
    primary_rearm-Rearmed Rearm.rearm false e = (primary_rearms v w l a reg, refl)
    primary_rearm-Rearmed Rearm.disarm false e = (primary_disarms v w l a reg, refl)
    primary_rearm-Rearmed Rearm.remove false e = removes_marked
    primary_rearm-Rearmed Rearm.noop false e = (quiet v w l a reg, refl)
    primary_rearm-Rearmed Rearm.removed false e = (quiet v w l a reg, refl)
    primary_rearm-Rearmed Rearm.requeue false e = (quiet v w l a reg, refl)

  -- After process_primary_rearm, for any value `x` that the callback of the primary half of a bidi watcher
  -- returned, if the watcher is not emulated, its descriptor is registered and the mechanism watches the directions in its watch flags: the
  -- input direction is watched after REARM, not after DISARM or REMOVE, and as before otherwise; the output
  -- direction is watched as before. The watch flags say the same. Only if `x` is REMOVE, the output half is
  -- removed too and the mechanism has no separate watches, neither direction is watched, and the flags stay.
  -- The result is REMOVE only if both halves are removed, NOOP if only this one is, and `x` otherwise.
  pub process_primary_rearm-Rearmed :
      (w : ℕ) (x : Rearm) (l : Loop M)
      → (v : IsMechanism m reads writes) → IsArmed m reads writes w l
      → v.registered l.loop_mech (at l w).watch_fd ≡ true
      → (at l w).emulatefd ≡ false
      → let r = process_primary_rearm m w x l in
        OnInput
          (is_remove x && (not m.has_separate_rw_fd_watches && (at l w).write_removed))
          x
          w
          (at l w)
          r.0
        × (r.1 ≡ returns x (at l w).write_removed)
  unfolding process_primary_rearm
  process_primary_rearm-Rearmed w x l v a reg e = primary_rearm-Rearmed v w l a reg x _ e
