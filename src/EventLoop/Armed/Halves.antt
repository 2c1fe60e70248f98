-- ===== src/EventLoop/Armed/Halves.antt =====
-- How the watched directions of a descriptor follow the watch flags when one half is armed or disarmed.
use dasynq.Prelude.{
  ℕ, ◌≡◌, refl, sym, ap, ◌∙◌, Bool, true, false, not, ◌&&◌, ◌||◌, if◌then◌else◌, arith,
}
use dasynq.Prelude.Int.{ℤ}
use dasynq.Flags.{Mask, io_events, bit_and}
use dasynq.Watcher.{Watcher, Rearm}
use dasynq.EventLoop.Defs.{Mechanism, Loop, on_watcher, set_fd_enabled_nolock}
use dasynq.EventLoop.Rearm.{at, enable_io, disable, remove_fd, disarm_half, rearm_half}
use dasynq.EventLoop.Armed.{
  IsOneWay, IsMechanism, Arms, set_fd_enabled_nolock-joint, set_fd_enabled_nolock-separate,
}

-- What a half is set to by the value that its callback returned.
abbrev pub turns : Rearm → Bool → Bool
turns Rearm.rearm b = true
turns Rearm.disarm b = false
turns Rearm.remove b = false
turns Rearm.noop b = b
turns Rearm.removed b = b
turns Rearm.requeue b = b

abbrev pub is_remove : Rearm → Bool
is_remove Rearm.remove = true
is_remove Rearm.rearm = false
is_remove Rearm.disarm = false
is_remove Rearm.noop = false
is_remove Rearm.removed = false
is_remove Rearm.requeue = false

-- The value that goes on to post_dispatch: REMOVE only if the other half is removed too.
abbrev pub returns : Rearm → Bool → Rearm
returns Rearm.remove other = if other then Rearm.remove else Rearm.noop
returns Rearm.rearm other = Rearm.rearm
returns Rearm.disarm other = Rearm.disarm
returns Rearm.noop other = Rearm.noop
returns Rearm.removed other = Rearm.removed
returns Rearm.requeue other = Rearm.requeue

module _ {M : Type 0} (m : Mechanism M) (reads writes : M → ℤ → Bool) where
  -- The mechanism watches the directions of the descriptor that are in the watch flags.
  abbrev pub IsArmed : ℕ → Loop M → Type 0
  IsArmed w l =
      (reads l.loop_mech (at l w).watch_fd ≡ (at l w).watch_flags.bit_1)
      × (writes l.loop_mech (at l w).watch_fd ≡ (at l w).watch_flags.bit_2)

  -- The directions of the descriptor `fd` of `w` that are watched, and those in the watch flags.
  pub record Rearmed (w : ℕ) (fd : ℤ) (rd wr inp out : Bool) (r : Loop M) : Type 0 where
    pub same_fd : (at r w).watch_fd ≡ fd
    pub reading : reads r.loop_mech fd ≡ rd
    pub writing : writes r.loop_mech fd ≡ wr
    pub in_flag : (at r w).watch_flags.bit_1 ≡ inp
    pub out_flag : (at r w).watch_flags.bit_2 ≡ out

  pub Arms-Rearmed :
      (w : ℕ) (fd : ℤ) (rd wr : Bool) (l r : Loop M)
      → Arms m reads writes (at l w).watch_fd rd wr l r
      → (at l w).watch_fd ≡ fd
      → Rearmed w fd rd wr (at l w).watch_flags.bit_1 (at l w).watch_flags.bit_2 r
  Arms-Rearmed w fd rd wr l r a e = record {
    same_fd = ap (λ d. (d.watcher w).watch_fd) a.same ∙ e;
    reading = ap (reads r.loop_mech) (sym e) ∙ a.reading;
    writing = ap (writes r.loop_mech) (sym e) ∙ a.writing;
    in_flag = ap (λ d. (d.watcher w).watch_flags.bit_1) a.same;
    out_flag = ap (λ d. (d.watcher w).watch_flags.bit_2) a.same;
  }

  pub at-on_watcher :
      (w : ℕ) (f : Watcher → Watcher) (l : Loop M) → at (on_watcher w f l) w ≡ f (at l w)
  at-on_watcher w f l = ground arith

  -- after a change of the watcher that keeps its descriptor
  pub changed-Rearmed :
      (w : ℕ) (f : Watcher → Watcher) (rd wr : Bool) (l r : Loop M)
      → (f (at l w)).watch_fd ≡ (at l w).watch_fd
      → Arms m reads writes (at (on_watcher w f l) w).watch_fd rd wr (on_watcher w f l) r
      → Rearmed w
          (at l w).watch_fd
          rd
          wr
          (f (at l w)).watch_flags.bit_1
          (f (at l w)).watch_flags.bit_2
          r
  changed-Rearmed w f rd wr l r keeps a =
      let e = at-on_watcher w f l in
      let b =
        Arms-Rearmed w (at l w).watch_fd rd wr (on_watcher w f l) r a
          (ap (λ (x : Watcher). x.watch_fd) e ∙ keeps) in
      record {
        same_fd = b.same_fd;
        reading = b.reading;
        writing = b.writing;
        in_flag = b.in_flag ∙ ap (λ (x : Watcher). x.watch_flags.bit_1) e;
        out_flag = b.out_flag ∙ ap (λ (x : Watcher). x.watch_flags.bit_2) e;
      }

  -- the same, if the mechanism follows the watch flags
  pub followed-Rearmed :
      (w : ℕ) (f : Watcher → Watcher) (inp out : Bool) (l r : Loop M)
      → (f (at l w)).watch_fd ≡ (at l w).watch_fd
      → (f (at l w)).watch_flags.bit_1 ≡ inp
      → (f (at l w)).watch_flags.bit_2 ≡ out
      → Arms m reads writes
          (at (on_watcher w f l) w).watch_fd
          (at (on_watcher w f l) w).watch_flags.bit_1
          (at (on_watcher w f l) w).watch_flags.bit_2
          (on_watcher w f l)
          r
      → Rearmed w (at l w).watch_fd inp out inp out r
  followed-Rearmed w f inp out l r keeps e1 e2 a =
      let e = at-on_watcher w f l in
      let b = changed-Rearmed w f _ _ l r keeps a in
      record {
        same_fd = b.same_fd;
        reading = b.reading ∙ ap (λ (x : Watcher). x.watch_flags.bit_1) e ∙ e1;
        writing = b.writing ∙ ap (λ (x : Watcher). x.watch_flags.bit_2) e ∙ e2;
        in_flag = b.in_flag ∙ e1;
        out_flag = b.out_flag ∙ e2;
      }

  module _ (v : IsMechanism m reads writes) (w : ℕ) (l : Loop M) where
    -- The mechanism gets a direction, or loses one, that the watch flags of `w` have got or lost.
    pub rearm_half-Arms :
        (flags : Mask) (b : Bool)
        → IsOneWay flags
        → m.has_separate_rw_fd_watches ≡ b
        → v.registered l.loop_mech (at l w).watch_fd ≡ true
        → (at l w).watch_flags.bit_1 ≡ (reads l.loop_mech (at l w).watch_fd || flags.bit_1)
        → (at l w).watch_flags.bit_2 ≡ (writes l.loop_mech (at l w).watch_fd || flags.bit_2)
        → Arms m reads writes
            (at l w).watch_fd
            (at l w).watch_flags.bit_1
            (at l w).watch_flags.bit_2
            l
            (rearm_half m b w flags l)
    unfolding rearm_half enable_io
    rearm_half-Arms flags true way s reg e f =
        let a = set_fd_enabled_nolock-separate m reads writes v w _ flags l s way in
        record { same = a.same; reading = a.reading ∙ sym e; writing = a.writing ∙ sym f }
    rearm_half-Arms flags false way s reg e f =
        let a =
          set_fd_enabled_nolock-joint m reads writes v true w (at l w).watch_fd
            (bit_and (at l w).watch_flags io_events) l s reg in
        record {
          same = a.same;
          reading = ground (arith, a.reading);
          writing = ground (arith, a.writing);
        }

    pub disarm_half-Arms :
        (flags : Mask) (enabled : Bool) (b : Bool)
        → IsOneWay flags
        → m.has_separate_rw_fd_watches ≡ b
        → v.registered l.loop_mech (at l w).watch_fd ≡ true
        → (at l w).watch_flags.bit_1 ≡ (reads l.loop_mech (at l w).watch_fd && not flags.bit_1)
        → (at l w).watch_flags.bit_2 ≡ (writes l.loop_mech (at l w).watch_fd && not flags.bit_2)
        → (enabled || (at l w).watch_flags.bit_1) ≡ enabled
        → (enabled || (at l w).watch_flags.bit_2) ≡ enabled
        → Arms m reads writes
            (at l w).watch_fd
            (at l w).watch_flags.bit_1
            (at l w).watch_flags.bit_2
            l
            (disarm_half m b w flags enabled l)
    unfolding disarm_half enable_io disable
    disarm_half-Arms flags enabled true way s reg e f g h =
        let a = v.disable_separate (at l w).watch_fd flags l.loop_mech s way in
        record { same = refl; reading = a.0 ∙ sym e; writing = a.1 ∙ sym f }
    disarm_half-Arms flags enabled false way s reg e f g h =
        let a =
          set_fd_enabled_nolock-joint m reads writes v enabled w (at l w).watch_fd
            (bit_and (at l w).watch_flags io_events) l s reg in
        record {
          same = a.same;
          reading = ground (arith, a.reading, g);
          writing = ground (arith, a.writing, h);
        }

    pub remove_fd-Arms :
        (flags : Mask)
        → m.has_separate_rw_fd_watches ≡ true
        → (at l w).watch_flags.bit_1 ≡ (reads l.loop_mech (at l w).watch_fd && not flags.bit_1)
        → (at l w).watch_flags.bit_2 ≡ (writes l.loop_mech (at l w).watch_fd && not flags.bit_2)
        → Arms m reads writes
            (at l w).watch_fd
            (at l w).watch_flags.bit_1
            (at l w).watch_flags.bit_2
            l
            (remove_fd m w flags l)
    unfolding remove_fd
    remove_fd-Arms flags s e f =
        let a = v.remove_separate (at l w).watch_fd flags l.loop_mech s in
        record { same = refl; reading = a.0 ∙ sym e; writing = a.1 ∙ sym f }

    pub remove_fd-ends :
        (flags : Mask)
        → m.has_separate_rw_fd_watches ≡ false
        → Arms m reads writes (at l w).watch_fd false false l (remove_fd m w flags l)
    unfolding remove_fd
    remove_fd-ends flags s =
        let a = v.remove_joint (at l w).watch_fd flags l.loop_mech s in
        record { same = refl; reading = a.0; writing = a.1 }

    -- the watch flags themselves are set, without separate watches
    pub set_flags-Arms :
        (b : Bool)
        → m.has_separate_rw_fd_watches ≡ false
        → v.registered l.loop_mech (at l w).watch_fd ≡ true
        → (b || (at l w).watch_flags.bit_1) ≡ b
        → (b || (at l w).watch_flags.bit_2) ≡ b
        → Arms m reads writes
            (at l w).watch_fd
            (at l w).watch_flags.bit_1
            (at l w).watch_flags.bit_2
            l
            (set_fd_enabled_nolock m w (at l w).watch_fd (at l w).watch_flags b l)
    set_flags-Arms b s reg e f =
        let a =
          set_fd_enabled_nolock-joint m reads writes v b w (at l w).watch_fd (at l w).watch_flags l
            s reg in
        record {
          same = a.same;
          reading = ground (arith, a.reading, e);
          writing = ground (arith, a.writing, f);
        }
