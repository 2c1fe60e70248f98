-- ===== src/Epoll/Refine.antt =====
-- An epoll_loop is a mechanism: what it promises of the watched directions follows from what epoll_ctl does.
use dasynq.Prelude.{ℕ, ◌≡◌, refl, ap, Bool, true, false, ◌&&◌, Option, none, some, arith}
use dasynq.Prelude.Int.{ℤ}
use dasynq.Flags.{Mask}
use dasynq.EventLoop.Armed.{IsMechanism}
use dasynq.Epoll.Defs.{
  EpollEvent, CtlResult, Kernel, Epoll, ctl_result, add_fd_watch, BaseLoop, epoll_mechanism,
  enable_fd_watch, disable_fd_watch, remove_fd_watch, watch_event, disabled_event,
}

-- Documented of epoll_ctl, by the event registered for a descriptor in an epoll set: EPOLL_CTL_ADD that
-- succeeds registers the event; EPOLL_CTL_MOD changes the
-- event of a descriptor that is registered, and does nothing if it is not; EPOLL_CTL_DEL ends the registration.
pub record IsKernel {K : Type 0} (kernel : Kernel K) (interest : K → ℤ → ℤ → Option EpollEvent)
    : Type 0 where
  pub add_ok :
      (epfd fd : ℤ) (e : EpollEvent) (k : K)
      → (kernel.epoll_ctl_add epfd fd e k).1 ≡ CtlResult.added
      → interest (kernel.epoll_ctl_add epfd fd e k).0 epfd fd ≡ some e
  pub mod_known :
      (epfd fd : ℤ) (e old : EpollEvent) (k : K)
      → interest k epfd fd ≡ some old
      → interest (kernel.epoll_ctl_mod epfd fd e k) epfd fd ≡ some e
  pub mod_unknown :
      (epfd fd : ℤ) (e : EpollEvent) (k : K)
      → interest k epfd fd ≡ none
      → interest (kernel.epoll_ctl_mod epfd fd e k) epfd fd ≡ none
  pub del : (epfd fd : ℤ) (k : K) → interest (kernel.epoll_ctl_del epfd fd k) epfd fd ≡ none

abbrev pub reads_of : Option EpollEvent → Bool
reads_of none = false
reads_of (some e) = e.epollin

abbrev pub writes_of : Option EpollEvent → Bool
writes_of none = false
writes_of (some e) = e.epollout

abbrev pub is_some : Option EpollEvent → Bool
is_some none = false
is_some (some e) = true

module _ {K : Type 0} (kernel : Kernel K) (interest : K → ℤ → ℤ → Option EpollEvent) where
  -- the event registered for a descriptor
  abbrev pub watch : Epoll K → ℤ → Option EpollEvent
  watch s fd = interest s.kernel s.epfd fd

  module _ (v : IsKernel kernel interest) where
    pub enable_fd_watch-watch :
        (fd : ℤ) (w : ℕ) (flags : Mask) (s : Epoll K) (o : Option EpollEvent)
        → watch s fd ≡ o
        → is_some o ≡ true
        → watch (enable_fd_watch kernel fd w flags s) fd ≡ some (watch_event w flags true)
    unfolding enable_fd_watch
    enable_fd_watch-watch fd w flags s none e h = absurd (ground (arith, h))
    enable_fd_watch-watch fd w flags s (some old) e h = v.mod_known s.epfd fd _ old s.kernel e

    disable_fd_watch-watch :
        (fd : ℤ) (flags : Mask) (s : Epoll K) (o : Option EpollEvent)
        → watch s fd ≡ o
        → (reads_of (watch (disable_fd_watch kernel fd flags s) fd) ≡ false)
          × (writes_of (watch (disable_fd_watch kernel fd flags s) fd) ≡ false)
    unfolding disable_fd_watch disabled_event
    disable_fd_watch-watch fd flags s none e =
        let e' = v.mod_unknown s.epfd fd disabled_event s.kernel e in
        (ap (λ o. reads_of o) e', ap (λ o. writes_of o) e')
    disable_fd_watch-watch fd flags s (some old) e =
        let e' = v.mod_known s.epfd fd disabled_event old s.kernel e in
        (ap (λ o. reads_of o) e', ap (λ o. writes_of o) e')

    disable_fd_watch-known :
        (fd : ℤ) (flags : Mask) (s : Epoll K) (o : Option EpollEvent)
        → watch s fd ≡ o
        → is_some o ≡ true
        → is_some (watch (disable_fd_watch kernel fd flags s) fd) ≡ true
    unfolding disable_fd_watch
    disable_fd_watch-known fd flags s none e h = absurd (ground (arith, h))
    disable_fd_watch-known fd flags s (some old) e h =
        ap (λ o. is_some o) (v.mod_known s.epfd fd disabled_event old s.kernel e)

    ctl_result-added :
        (soft : Bool) (r : CtlResult) → ctl_result kernel soft r ≡ some true → r ≡ CtlResult.added
    unfolding ctl_result
    ctl_result-added soft CtlResult.added e = refl
    ctl_result-added true CtlResult.eperm e = absurd (ground (arith, e))
    ctl_result-added false CtlResult.eperm e = absurd (ground (arith, e))
    ctl_result-added soft CtlResult.failed e = absurd (ground (arith, e))

    add_fd_watch-watch :
        (fd : ℤ) (w : ℕ) (flags : Mask) (enabled soft : Bool) (s : Epoll K)
        → (add_fd_watch kernel fd w flags enabled soft s).1 ≡ some true
        → watch (add_fd_watch kernel fd w flags enabled soft s).0 fd
          ≡ some (watch_event w flags enabled)
    unfolding add_fd_watch
    add_fd_watch-watch fd w flags enabled soft s e =
        v.add_ok s.epfd fd (watch_event w flags enabled) s.kernel (ctl_result-added soft _ e)

    -- If the kernel's epoll_ctl does what is documented, and interrupt_wait of the base class leaves the epoll
    -- set alone, an epoll_loop is a mechanism without separate watches, whose watched directions are those of
    -- the event that is registered with epoll_ctl. The descriptors it promises this of are those for which an
    -- event is registered; an add_fd_watch that succeeds registers its descriptor, with the directions of its
    -- flags if it is enabled and none otherwise, and enable_fd_watch and disable_fd_watch keep it registered.
    pub epoll_loop-IsMechanism :
        (base : BaseLoop (Epoll K))
        → ((s : Epoll K) (fd : ℤ) → watch (base.interrupt_wait s) fd ≡ watch s fd)
        → (m : IsMechanism
            (epoll_mechanism kernel base)
            (λ s fd. reads_of (watch s fd))
            (λ s fd. writes_of (watch s fd)))
          × ((s : Epoll K) (fd : ℤ) → m.registered s fd ≡ is_some (watch s fd))
          × ((fd : ℤ) (w : ℕ) (flags : Mask) (enabled soft : Bool) (s : Epoll K)
              → (add_fd_watch kernel fd w flags enabled soft s).1 ≡ some true
              → let r = (add_fd_watch kernel fd w flags enabled soft s).0 in
                (m.registered r fd ≡ true)
                × (reads_of (watch r fd) ≡ (flags.bit_1 && enabled))
                × (writes_of (watch r fd) ≡ (flags.bit_2 && enabled)))
          × ((fd : ℤ) (w : ℕ) (flags : Mask) (s : Epoll K)
              → m.registered s fd ≡ true
              → (m.registered (enable_fd_watch kernel fd w flags s) fd ≡ true)
                × (m.registered (disable_fd_watch kernel fd flags s) fd ≡ true))
    unfolding epoll_mechanism watch_event remove_fd_watch
    epoll_loop-IsMechanism base quiet = (
      record {
        registered = λ s fd. is_some (watch s fd);
        enable_joint = λ fd w flags s joint reg.
            let e = enable_fd_watch-watch fd w flags s (watch s fd) refl reg in
            (ground (arith, ap (λ o. reads_of o) e), ground (arith, ap (λ o. writes_of o) e));
        enable_separate = λ fd w flags s separate way. absurd (ground (arith, separate));
        disable_joint = λ fd flags s joint. disable_fd_watch-watch fd flags s (watch s fd) refl;
        disable_separate = λ fd flags s separate way. absurd (ground (arith, separate));
        remove_joint = λ fd flags s joint.
            let e = v.del s.epfd fd s.kernel in (ap (λ o. reads_of o) e, ap (λ o. writes_of o) e);
        remove_separate = λ fd flags s separate. absurd (ground (arith, separate));
        interrupts =
            λ fd s. (ap (λ o. reads_of o) (quiet s fd), ap (λ o. writes_of o) (quiet s fd));
      },
      λ s fd. refl,
      λ fd w flags enabled soft s e.
          let a = add_fd_watch-watch fd w flags enabled soft s e in
          (ap (λ o. is_some o) a, ap (λ o. reads_of o) a, ap (λ o. writes_of o) a),
      λ fd w flags s reg. (
        ap (λ o. is_some o) (enable_fd_watch-watch fd w flags s (watch s fd) refl reg),
        disable_fd_watch-known fd flags s (watch s fd) refl reg,
      ),
    )
