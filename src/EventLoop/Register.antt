-- ===== src/EventLoop/Register.antt =====
-- The registration of watchers with an event loop: register_signal, register_fd, register_child and the like.
-- Each runs with the lock held, which is free again at the end, and either returns or throws.
use dasynq.Prelude.{ℕ, Bool, true, false, ◌&&◌, ◌||◌, Option, none, some, if◌then◌else◌}
use dasynq.Prelude.Int.{ℤ}
use dasynq.Vector.{Throws, ok, bad_alloc}
use dasynq.Flags.{
  Mask, ClockType, in_events, out_events, io_events, one_shot, bit_or, bit_and, has_any,
}
use dasynq.Watcher.{Watcher, out_watcher}
use dasynq.Dispatch.Defs
use dasynq.Dispatch.Defs.{Storage, Dispatch, lock, unlock, drop_watches}
use dasynq.EventLoop.Defs.{
  Mechanism, Loop, on_watcher, on_dispatch, interrupt_after, requeue_watcher,
}

-- What registration uses of the mechanism. `none`, or `false` for a function without a result, says that the
-- function threw. The result of add_fd_watch is false if the watch must be emulated, and that of
-- add_bidi_fd_watch is the mask of the directions that must be.
pub record Registry (M : Type 0) : Type 0 where
  pub add_signal_watch_nolock : ℕ → ℕ → M → M × Bool
  pub add_fd_watch : ℤ → ℕ → Mask → Bool → Bool → M → M × Option Bool
  pub add_bidi_fd_watch : ℤ → ℕ → Mask → Bool → M → M × Option Mask
  pub reserve_child_watch_nolock : ℕ → M → M × Bool
  pub add_child_watch_nolock : ℕ → ℕ → M → M × Bool
  pub add_timer_nolock : ℕ → ClockType → M → M × Bool

unfoldable pub set_emulated : Watcher → Watcher
set_emulated x = record x { emulatefd = true }

unfoldable pub set_emulation : Bool → Watcher → Watcher
set_emulation enabled x = record x { emulatefd = true; emulate_enabled = enabled }

unfoldable pub set_events : Mask → Watcher → Watcher
set_events flags x = record x { event_flags = flags }

module _ {M : Type 0} (al : Storage) where
  -- The handler `catch (...)` for `w`, by whether the function in the try block returned.
  unfoldable pub catching : ℕ → Loop M × Bool → Loop M × Bool
  catching w (l, true) = (l, true)
  catching w (l, false) = (on_dispatch (Defs.release_watcher al w) l, false)

  -- prepare_watcher of `w`, which may throw, and then `body` in a try block
  unfoldable pub prepared : ℕ → (Loop M → Loop M × Bool) → Loop M → Throws Dispatch → Loop M × Bool
  unfolding catching
  prepared w body l bad_alloc = (l, false)
  prepared w body l (ok d) = catching w (body (record l { dispatch = d }))

  unfoldable pub try_register : ℕ → (Loop M → Loop M × Bool) → Loop M → Loop M × Bool
  unfolding prepared
  try_register w body l = prepared w body l (Defs.prepare_watcher al w l.dispatch)

  -- the lock_guard around a registration
  unfoldable pub guarded : (Loop M → Loop M × Bool) → Loop M → Loop M × Bool
  guarded body l = let (l', done) = body (on_dispatch lock l) in (on_dispatch unlock l', done)

  module _ (m : Mechanism M) (registry : Registry M) where
    -- interrupt the poll if the function returned and the mechanism asks for it
    unfoldable pub after_add : Bool → Loop M × Bool → Loop M × Bool
    after_add wanted (l, true) = (interrupt_after m wanted l, true)
    after_add wanted (l, false) = (l, false)

    -- the try block of register_signal
    unfoldable pub add_signal : ℕ → ℕ → Loop M → Loop M × Bool
    unfolding after_add
    add_signal w signo l =
        let (s, done) = registry.add_signal_watch_nolock signo w l.loop_mech in
        after_add m.interrupt_after_signal_add (record l { loop_mech = s }, done)

    unfoldable pub register_signal : ℕ → ℕ → Loop M → Loop M × Bool
    unfolding guarded try_register add_signal
    register_signal w signo = guarded (try_register w (add_signal w signo))

    -- A watch of `w` that is emulated is queued at once if it is enabled.
    unfoldable pub emulate_fd : Bool → Bool → ℕ → Mask → Loop M → Loop M
    emulate_fd true true w eventmask l =
        requeue_watcher m al w (on_watcher w (set_events (bit_and eventmask io_events)) l)
    emulate_fd true false w eventmask l = on_watcher w (set_events (bit_and eventmask io_events)) l
    emulate_fd false any w eventmask l = l

    -- The try block of register_fd, by the result of add_fd_watch.
    unfoldable pub fd_added : ℕ → Mask → Bool → Option Bool → Loop M → Loop M × Bool
    unfolding emulate_fd set_emulation set_events
    fd_added w eventmask enabled none l = (l, false)
    fd_added w eventmask enabled (some true) l =
        (interrupt_after m (enabled && m.interrupt_after_fd_add) l, true)
    fd_added w eventmask enabled (some false) l = (
      emulate_fd enabled (has_any (bit_and eventmask io_events)) w eventmask
          (on_watcher w (set_emulation enabled) l),
      true,
    )

    unfoldable pub register_fd : ℕ → ℤ → Mask → Bool → Bool → Loop M → Loop M × Bool
    unfolding guarded try_register fd_added
    register_fd w fd eventmask enabled emulate = guarded (
        try_register w λ l.
          let (s, r) =
            registry.add_fd_watch fd w (bit_or eventmask one_shot) enabled emulate l.loop_mech in
          fd_added w eventmask enabled r (record l { loop_mech = s }))

    -- A half of a bidi watcher that is emulated is queued at once, and its flag cleared, if `watched`.
    unfoldable pub emulate_half : Bool → ℕ → ℕ → Mask → Loop M → Loop M
    emulate_half true w half flags l =
        requeue_watcher m al half (on_watcher w (drop_watches flags) l)
    emulate_half false w half flags l = l

    unfoldable pub emulate_if : Bool → Bool → ℕ → ℕ → Mask → Loop M → Loop M
    unfolding emulate_half set_emulated
    emulate_if true watched w half flags l =
        emulate_half watched w half flags (on_watcher half set_emulated l)
    emulate_if false watched w half flags l = l

    -- The inner try block, with separate watches: `r` has the directions to emulate.
    unfoldable pub bidi_added : ℕ → Mask → Option Mask → Loop M → Loop M × Bool
    unfolding emulate_if
    bidi_added w eventmask none l = (l, false)
    bidi_added w eventmask (some r) l =
        let inp = has_any (bit_and r in_events) in
        let out = has_any (bit_and r out_events) in
        let watch_in = has_any (bit_and eventmask in_events) in
        let watch_out = has_any (bit_and eventmask out_events) in
        let l1 = emulate_if inp watch_in w w in_events l in
        let l2 = emulate_if out watch_out w (out_watcher w) out_events l1 in
        let direct_in = if inp then false else watch_in in
        let direct_out = if out then false else watch_out in
        (interrupt_after m ((direct_in || direct_out) && m.interrupt_after_fd_add) l2, true)

    -- Without separate watches.
    unfoldable pub joint_added : ℕ → Mask → Option Bool → Loop M → Loop M × Bool
    unfolding emulate_half set_emulated
    joint_added w eventmask none l = (l, false)
    joint_added w eventmask (some true) l = (interrupt_after m m.interrupt_after_fd_add l, true)
    joint_added w eventmask (some false) l =
        let l1 = on_watcher (out_watcher w) set_emulated (on_watcher w set_emulated l) in
        let l2 = emulate_half (has_any (bit_and eventmask in_events)) w w in_events l1 in
        (
          emulate_half (has_any (bit_and eventmask out_events)) w (out_watcher w) out_events l2,
          true,
        )

    -- by has_separate_rw_fd_watches
    unfoldable pub add_bidi : Bool → ℕ → ℤ → Mask → Bool → Loop M → Loop M × Bool
    unfolding bidi_added joint_added
    add_bidi true w fd eventmask emulate l =
        let (s, r) =
          registry.add_bidi_fd_watch fd w (bit_or eventmask one_shot) emulate l.loop_mech in
        bidi_added w eventmask r (record l { loop_mech = s })
    add_bidi false w fd eventmask emulate l =
        let (s, r) =
          registry.add_fd_watch fd w (bit_or eventmask one_shot) true emulate l.loop_mech in
        joint_added w eventmask r (record l { loop_mech = s })

    unfoldable pub register_bidi_fd : ℕ → ℤ → Mask → Bool → Loop M → Loop M × Bool
    unfolding guarded try_register add_bidi
    register_bidi_fd w fd eventmask emulate = guarded (
        try_register w (
          try_register (out_watcher w)
            (add_bidi m.has_separate_rw_fd_watches w fd eventmask emulate)))

    -- the try block of reserve_child_watch
    unfoldable pub reserve_child : ℕ → Loop M → Loop M × Bool
    reserve_child w l =
        let (s, done) = registry.reserve_child_watch_nolock w l.loop_mech in
        (record l { loop_mech = s }, done)

    unfoldable pub reserve_child_watch : ℕ → Loop M → Loop M × Bool
    unfolding guarded try_register reserve_child
    reserve_child_watch w = guarded (try_register w (reserve_child w))

    -- unreserve_child_watch takes the lock; a thread that has it already waits for ever (`none`).
    unfoldable pub unreserve_child_watch : ℕ → Loop M → Option (Loop M)
    unreserve_child_watch w l =
        if l.dispatch.locked
        then none
        else some (record l { loop_mech = m.unreserve_child_watch_nolock w l.loop_mech })

    -- The lock is taken here, and again in unreserve_child_watch.
    unfoldable pub unreserve : ℕ → Loop M → Option (Loop M)
    unfolding unreserve_child_watch
    unreserve w l = elim (unreserve_child_watch w (on_dispatch lock l)) [
      | some l' ↦ some (on_dispatch (λ d. unlock (Defs.release_watcher al w d)) l')
      | none ↦ none
    ]

    -- the try block of register_child
    unfoldable pub add_child : ℕ → ℕ → Loop M → Loop M × Bool
    add_child w child l =
        let (s, done) = registry.add_child_watch_nolock w child l.loop_mech in
        (record l { loop_mech = s }, done)

    unfoldable pub register_child : ℕ → ℕ → Loop M → Loop M × Bool
    unfolding guarded try_register add_child
    register_child w child = guarded (try_register w (add_child w child))

    -- The handler of register_timer does not throw again: the second part is false only if prepare_watcher
    -- threw. The third part says whether the timer was added.
    unfoldable pub timer_added : ℕ → ClockType → Loop M → Throws Dispatch → Loop M × Bool × Bool
    unfolding catching
    timer_added w clock l bad_alloc = (l, false, false)
    timer_added w clock l (ok d) =
        let (s, done) = registry.add_timer_nolock w clock l.loop_mech in
        let (l', added) = catching w (record l { dispatch = d; loop_mech = s }, done) in
        (l', true, added)

    unfoldable pub register_timer : ℕ → ClockType → Loop M → Loop M × Bool × Bool
    unfolding timer_added
    register_timer w clock l =
        let l1 = on_dispatch lock l in
        let (l2, returned, added) =
          timer_added w clock l1 (Defs.prepare_watcher al w l1.dispatch) in
        (on_dispatch unlock l2, returned, added)
