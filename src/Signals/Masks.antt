-- ===== src/Signals/Masks.antt =====
-- The parameter mask_enables only chooses how the active signals are kept.
use dasynq.Prelude.{
  ℕ, ◌≡◌, refl, ap, sym, Bool, true, false, not, ◌&&◌, Option, none, some, List, [], ◌∷◌, arith,
  subst, write,
}
use dasynq.Signals.Defs.{
  Sigset, Signals, Siginfo, activate, deactivate, initial_mask, signal_events, received,
  received_with, process_for, process_with, process_signal, process_signal_mask,
  rearm_signal_watch_nolock, add_signal_watch_nolock, remove_signal_watch_nolock,
}

-- The calls of the object. That of process_signal with a mask also gets the signals that are blocked.
pub data Call : Type 0 where
  add : ℕ → ℕ → Call
  rearm : ℕ → ℕ → Call
  remove : ℕ → Call
  process : Siginfo → Call
  process_mask : Siginfo → Call

abbrev pub has_userdata : Option ℕ → Bool
has_userdata none = false
has_userdata (some w) = true

-- The signals whose user data was set, after a call, and after several.
abbrev pub known_after : Call → (ℕ → Bool) → ℕ → Bool
known_after (add signo w) known = write known signo true
known_after (rearm signo w) known = write known signo true
known_after (remove signo) known = write known signo true
known_after (process i) known = known
known_after (process_mask i) known = known

abbrev pub known_by : List Call → (ℕ → Bool) → ℕ → Bool
known_by [] known = known
known_by (c ∷ rest) known = known_by rest (known_after c known)

-- process_signal only gets signals whose user data was set before
abbrev pub IsAsked : Call → (ℕ → Bool) → Type 0
IsAsked (add signo w) known = Unit {0}
IsAsked (rearm signo w) known = Unit {0}
IsAsked (remove signo) known = Unit {0}
IsAsked (process i) known = known i.si_signo ≡ true
IsAsked (process_mask i) known = known i.si_signo ≡ true

abbrev pub AreAsked : List Call → (ℕ → Bool) → Type 0
AreAsked [] known = Unit {0}
AreAsked (c ∷ rest) known = IsAsked c known × AreAsked rest (known_after c known)

-- The comment of process_signal asks for the inverse of the active mask.
abbrev pub inverse : Sigset → Sigset
inverse mask n = not (mask n)

module _ {B K : Type 0} (prepare_signal unprep_signal : ℕ → K → K)
    (receive_signal : Siginfo → ℕ → B → B × Bool) where
  pub call : Bool → Call → Signals B K → Signals B K
  unfolding process_signal process_signal_mask
  call e (add signo w) =
      add_signal_watch_nolock e prepare_signal unprep_signal receive_signal signo w
  call e (rearm signo w) =
      rearm_signal_watch_nolock e prepare_signal unprep_signal receive_signal signo w
  call e (remove signo) =
      remove_signal_watch_nolock e prepare_signal unprep_signal receive_signal signo
  call e (process i) = process_signal e prepare_signal unprep_signal receive_signal i
  call e (process_mask i) = λ s.
      (process_signal_mask e prepare_signal unprep_signal receive_signal i
        (inverse s.active_sigmask) s).0

  pub calls : Bool → List Call → Signals B K → Signals B K
  unfolding call
  calls e [] s = s
  calls e (c ∷ rest) s = calls e rest (call e c s)

  -- The objects agree on all but the mask, where one has the inverse of the other, and the user data of signals
  -- that are not known; an active signal is known and has user data.
  pub record Agree (known : ℕ → Bool) (s t : Signals B K) : Type 0 where
    pub masks : (n : ℕ) → t.active_sigmask n ≡ not (s.active_sigmask n)
    pub userdata : (n : ℕ) → known n ≡ true → t.sig_userdata n ≡ s.sig_userdata n
    pub base : t.base ≡ s.base
    pub handlers : t.handlers ≡ s.handlers
    pub active : (n : ℕ) → (s.active_sigmask n && not (has_userdata (s.sig_userdata n))) ≡ false
    pub watched : (n : ℕ) → (s.active_sigmask n && not (known n)) ≡ false

  initial-Agree :
      (u u' : ℕ → Option ℕ) (b : B) (k : K)
      → Agree (λ n. false) (signal_events true u b k) (signal_events false u' b k)
  unfolding signal_events initial_mask
  initial-Agree u u' b k = record {
    masks = λ n. refl;
    userdata = λ n e. absurd (ground (arith, e));
    base = refl;
    handlers = refl;
    active = λ n. refl;
    watched = λ n. refl;
  }

  module _ (known : ℕ → Bool) (s t : Signals B K) (a : Agree known s t) where
    add-Agree :
        (signo w : ℕ)
        → Agree (write known signo true) (call true (add signo w) s) (call false (add signo w) t)
    unfolding call add_signal_watch_nolock activate
    add-Agree signo w = record {
      masks = λ n. ground (arith, a.masks n);
      userdata = λ n e. ground (arith, a.userdata n, e);
      base = a.base;
      handlers = ap (λ k. prepare_signal signo k) a.handlers;
      active = λ n. ground (arith, a.active n);
      watched = λ n. ground (arith, a.watched n);
    }

    rearm-Agree :
        (signo w : ℕ)
        → Agree
            (write known signo true)
            (call true (rearm signo w) s)
            (call false (rearm signo w) t)
    unfolding call rearm_signal_watch_nolock activate
    rearm-Agree signo w = record {
      masks = λ n. ground (arith, a.masks n);
      userdata = λ n e. ground (arith, a.userdata n, e);
      base = a.base;
      handlers = a.handlers;
      active = λ n. ground (arith, a.active n);
      watched = λ n. ground (arith, a.watched n);
    }

    remove-Agree :
        (signo : ℕ)
        → Agree (write known signo true) (call true (remove signo) s) (call false (remove signo) t)
    unfolding call remove_signal_watch_nolock deactivate
    remove-Agree signo = record {
      masks = λ n. ground (arith, a.masks n);
      userdata = λ n e. ground (arith, a.userdata n, e);
      base = a.base;
      handlers = ap (λ k. unprep_signal signo k) a.handlers;
      active = λ n. ground (arith, a.active n);
      watched = λ n. ground (arith, a.watched n);
    }

    received-Agree :
        (signo : ℕ) (r : B × Bool)
        → Agree known
            (received true prepare_signal unprep_signal receive_signal signo s r)
            (received false prepare_signal unprep_signal receive_signal signo t r)
    unfolding received deactivate
    received-Agree signo (b, true) = record {
      masks = λ n. ground (arith, a.masks n);
      userdata = a.userdata;
      base = refl;
      handlers = a.handlers;
      active = λ n. ground (arith, a.active n);
      watched = λ n. ground (arith, a.watched n);
    }
    received-Agree signo (b, false) = record {
      masks = a.masks;
      userdata = a.userdata;
      base = refl;
      handlers = a.handlers;
      active = a.active;
      watched = a.watched;
    }

    process_for-Agree :
        (o : Option ℕ) (i : Siginfo)
        → Agree known
            (process_for true prepare_signal unprep_signal receive_signal o i s)
            (process_for false prepare_signal unprep_signal receive_signal o i t)
    unfolding process_for
    process_for-Agree none i = a
    process_for-Agree (some w) i =
        subst
          (λ b.
            Agree known
              (received true prepare_signal unprep_signal receive_signal i.si_signo s
                (receive_signal i w s.base))
              (received false prepare_signal unprep_signal receive_signal i.si_signo t
                (receive_signal i w b)))
          (sym a.base) (received-Agree i.si_signo (receive_signal i w s.base))

    process-Agree :
        (i : Siginfo)
        → known i.si_signo ≡ true
        → Agree known (call true (process i) s) (call false (process i) t)
    unfolding call process_signal
    process-Agree i e =
        subst
          (λ o.
            Agree known
              (process_for true prepare_signal unprep_signal receive_signal
                (s.sig_userdata i.si_signo) i s)
              (process_for false prepare_signal unprep_signal receive_signal o i t))
          (sym (a.userdata i.si_signo e)) (process_for-Agree (s.sig_userdata i.si_signo) i)

  -- the other process_signal: the object is the same, and the caller's mask follows
  module _ (e : Bool) (s : Signals B K) (sigmask : Sigset)
      (inv : (n : ℕ) → sigmask n ≡ not (s.active_sigmask n)) where
    abbrev FollowsFor : Signals B K → Signals B K × Sigset → Type 0
    FollowsFor r x = (x.0 ≡ r) × ((n : ℕ) → x.1 n ≡ not (x.0.active_sigmask n))

    received_with-Follows :
        (signo : ℕ) (r : B × Bool)
        → FollowsFor
            (received e prepare_signal unprep_signal receive_signal signo s r)
            (received_with e prepare_signal unprep_signal receive_signal signo sigmask s r)
    unfolding received_with received activate deactivate
    received_with-Follows signo (b, true) = (refl, follows e)
      where
        follows :
            (e : Bool)
            → (n : ℕ) → activate e signo sigmask n ≡ not (deactivate e signo s.active_sigmask n)
        follows true n = ground (arith, inv n)
        follows false n = ground (arith, inv n)
    received_with-Follows signo (b, false) = (refl, inv)

    process_with-Follows :
        (o : Option ℕ) (i : Siginfo)
        → FollowsFor
            (process_for e prepare_signal unprep_signal receive_signal o i s)
            (process_with e prepare_signal unprep_signal receive_signal o i sigmask s)
    unfolding process_for process_with
    process_with-Follows none i = (refl, inv)
    process_with-Follows (some w) i = received_with-Follows i.si_signo (receive_signal i w s.base)

  call_mask :
      (e : Bool) (i : Siginfo) (s : Signals B K) → call e (process_mask i) s ≡ call e (process i) s
  unfolding call process_signal process_signal_mask
  call_mask e i s =
      (process_with-Follows e s (inverse s.active_sigmask) (λ n. refl) (s.sig_userdata i.si_signo)
        i).0

  call-Agree :
      (c : Call) (known : ℕ → Bool) (s t : Signals B K)
      → IsAsked c known
      → Agree known s t
      → Agree (known_after c known) (call true c s) (call false c t)
  call-Agree (add signo w) known s t ask a = add-Agree known s t a signo w
  call-Agree (rearm signo w) known s t ask a = rearm-Agree known s t a signo w
  call-Agree (remove signo) known s t ask a = remove-Agree known s t a signo
  call-Agree (process i) known s t ask a = process-Agree known s t a i ask
  call-Agree (process_mask i) known s t ask a =
      rw (call_mask true i s, call_mask false i t) (process-Agree known s t a i ask)

  calls-Agree :
      (cs : List Call) (known : ℕ → Bool) (s t : Signals B K)
      → AreAsked cs known
      → Agree known s t
      → Agree (known_by cs known) (calls true cs s) (calls false cs t)
  unfolding calls
  calls-Agree [] known s t ask a = a
  calls-Agree (c ∷ rest) known s t (ask, asks) a =
      calls-Agree rest (known_after c known) (call true c s) (call false c t) asks
        (call-Agree c known s t ask a)

  -- Two objects of signal_events that differ in mask_enables, and in what the constructor finds in
  -- `sig_userdata`: if process_signal only gets signals that a call set the user data of before, then after
  -- any calls they have the same base class and handlers, the same user data of the signals whose user data a
  -- call set, and the active mask of one is the inverse of that of the other. A signal that is active has user
  -- data that a call set. If the mask given to process_signal is the inverse of the active mask, then so is the
  -- mask that it leaves, for both.
  pub signal_events-Agree :
      (cs : List Call) (u u' : ℕ → Option ℕ) (b : B) (k : K) (i : Siginfo)
      → AreAsked cs (λ n. false)
      → let s = calls true cs (signal_events true u b k) in
        let t = calls false cs (signal_events false u' b k) in
        Agree (known_by cs (λ n. false)) s t
        × (let r =
              process_signal_mask true prepare_signal unprep_signal receive_signal i
                (inverse s.active_sigmask)
                s in
            (n : ℕ) → r.1 n ≡ not (r.0.active_sigmask n))
        × (let r =
              process_signal_mask false prepare_signal unprep_signal receive_signal i
                (inverse t.active_sigmask)
                t in
            (n : ℕ) → r.1 n ≡ not (r.0.active_sigmask n))
  unfolding process_signal_mask
  signal_events-Agree cs u u' b k i asks =
      let s = calls true cs (signal_events true u b k) in
      let t = calls false cs (signal_events false u' b k) in
      (
        calls-Agree cs (λ n. false) _ _ asks (initial-Agree u u' b k),
        (process_with-Follows true s (inverse s.active_sigmask) (λ n. refl)
            (s.sig_userdata i.si_signo) i).1,
        (process_with-Follows false t (inverse t.active_sigmask) (λ n. refl)
            (t.sig_userdata i.si_signo) i).1,
      )
