-- ===== src/AttnLock/Invariant/Enter.antt =====
-- A call of get_attn_lock, poll_attn_lock or get_pollwait_lock keeps the invariant.
use dasynq.Prelude.{ℕ, ◌≡◌, inl, refl, true, false, List, [], ◌∷◌, ◌++◌, arith, count-append}
use dasynq.AttnLock.{at_head, get_attn_lock, poll_attn_lock, get_pollwait_lock, queue_attn}
use dasynq.AttnLock.Calls.{
  queue_attn-Queues, queue_wait-Queues, at_head-first, get_attn_lock_alone, get_attn_lock_behind,
  get_pollwait_lock_alone, get_pollwait_lock_behind,
}
use dasynq.AttnLock.System.{Pc, System, pollwait_pc, moves, calls_attn, polls}
use dasynq.AttnLock.Invariant.{Inv, apart}

pub calls_attn-Inv :
    (a b : List ℕ) (s : System) (i : ℕ)
    → Inv a b s
    → s.pc i ≡ Pc.idle
    → Inv (a ++ i ∷ []) b (calls_attn i s (get_attn_lock i s.st))
calls_attn-Inv [] (k ∷ b) s i v e = absurd v.served
calls_attn-Inv [] [] s i v e =
    let far = apart [] [] s i v e in
    rw (get_attn_lock_alone s.st i [] v.queues far) (record {
      queues = queue_attn-Queues s.st i [] [] v.queues far;
      members = λ j. ground (arith, v.members j);
      parked = λ j. ground (arith, v.parked j);
      served = record {
        awake = inl (ground arith);
        polling = ground (arith, v.served);
        behind = λ j h. absurd (omega arith);
        told = λ _. inl refl;
      };
    })
calls_attn-Inv (h ∷ t) b s i v e =
    let far = apart (h ∷ t) b s i v e in
    let qs = queue_attn-Queues s.st i (h ∷ t) b v.queues far in
    rw (get_attn_lock_behind s.st i h t b v.queues far) (record {
      queues = record { attn = qs.attn; wait = qs.wait };
      members = λ j. ground (arith, v.members j, count-append t j (i ∷ []));
      parked = λ j. ground (arith, v.parked j, e);
      served = record {
        awake = ground (arith, v.served.awake, v.members h);
        polling = ground (arith, v.served.polling, v.members h);
        behind = λ j lt. ground (arith, v.served.behind j, count-append t j (i ∷ []));
        told = λ l. ground (arith, v.served.told l);
      };
    })

pub polls-Inv :
    (a b : List ℕ) (s : System) (i : ℕ)
    → Inv a b s
    → s.pc i ≡ Pc.idle
    → s.st.long_poll_running ≡ false
    → Inv (a ++ i ∷ []) b (polls i s (poll_attn_lock i s.st))
unfolding poll_attn_lock
polls-Inv [] (k ∷ b) s i v e quiet = absurd v.served
polls-Inv [] [] s i v e quiet =
    let far = apart [] [] s i v e in
    let qs = queue_attn-Queues s.st i [] [] v.queues far in
    let front : at_head i (queue_attn i s.st) ≡ true =
      ground (arith, at_head-first (queue_attn i s.st) i (i ∷ []) [] qs) in
    rw (quiet, front)
      (record {
        queues = record { attn = qs.attn; wait = qs.wait };
        members = λ j. ground (arith, v.members j);
        parked = λ j. ground (arith, v.parked j);
        served = record {
          awake = inl (ground arith);
          polling = ground (arith, v.served);
          behind = λ j h. absurd (omega arith);
          told = λ _. inl refl;
        };
      })
polls-Inv (h ∷ t) b s i v e quiet =
    let far = apart (h ∷ t) b s i v e in
    let qs = queue_attn-Queues s.st i (h ∷ t) b v.queues far in
    let behind : at_head i (queue_attn i s.st) ≡ false =
      ground (arith, at_head-first (queue_attn i s.st) i (h ∷ t ++ i ∷ []) b qs, far i) in
    rw (quiet, behind)
      (record {
        queues = record { attn = qs.attn; wait = qs.wait };
        members = λ j. ground (arith, v.members j, count-append t j (i ∷ []));
        parked = λ j. ground (arith, v.parked j, e);
        served = record {
          awake = ground (arith, v.served.awake, v.members h);
          polling = ground (arith, v.served.polling, v.members h);
          behind = λ j lt. ground (arith, v.served.behind j, count-append t j (i ∷ []));
          told = λ l. absurd (ground arith);
        };
      })

pub pollwait-Inv :
    (b : List ℕ) (s : System) (i : ℕ)
    → Inv [] b s
    → s.pc i ≡ Pc.idle
    → Inv (i ∷ []) b (moves i s (get_pollwait_lock i s.st) pollwait_pc)
pollwait-Inv (k ∷ b) s i v e = absurd v.served
pollwait-Inv [] s i v e =
    let far = apart [] [] s i v e in
    let qs = queue_attn-Queues s.st i [] [] v.queues far in
    rw (get_pollwait_lock_alone s.st i [] v.queues far) (record {
      queues = record { attn = qs.attn; wait = qs.wait };
      members = λ j. ground (arith, v.members j);
      parked = λ j. ground (arith, v.parked j);
      served = record {
        awake = inl (ground arith);
        polling = ground arith;
        behind = λ j h. absurd (omega arith);
        told = λ _. inl refl;
      };
    })

pub pollwait_behind-Inv :
    (h : ℕ) (t b : List ℕ) (s : System) (i : ℕ)
    → Inv (h ∷ t) b s
    → s.pc i ≡ Pc.idle
    → Inv (h ∷ t) (b ++ i ∷ []) (moves i s (get_pollwait_lock i s.st) pollwait_pc)
pollwait_behind-Inv h t b s i v e =
    let far = apart (h ∷ t) b s i v e in
    let qs = queue_wait-Queues s.st i (h ∷ t) b v.queues far in
    rw (get_pollwait_lock_behind s.st i h t b v.queues far) (record {
      queues = record { attn = qs.attn; wait = qs.wait };
      members = λ j. ground (arith, v.members j, count-append b j (i ∷ []));
      parked = λ j. ground (arith, v.parked j, v.members j, e, count-append b j (i ∷ []));
      served = record {
        awake = ground (arith, v.served.awake, v.members h);
        polling = ground (arith, v.served.polling, v.members h);
        behind = λ j lt. ground (arith, v.served.behind j);
        told = v.served.told;
      };
    })
