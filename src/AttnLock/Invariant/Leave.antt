-- ===== src/AttnLock/Invariant/Leave.antt =====
-- A return of a wait, and a call of release_lock, keep the invariant.
use dasynq.Prelude.{
  ℕ, ◌≡◌, inl, inr, refl, true, some, List, [], ◌∷◌, ◌==◌, arith, first, Bool-cases,
}
use dasynq.WaitQueue.Refine.{AreApart}
use dasynq.AttnLock.{wake_attn, wake_pollwait}
use dasynq.AttnLock.Calls.{at_head-first, release_lock-attn, release_lock-wait, release_lock-none}
use dasynq.AttnLock.System.{Pc, System, attn_pc, pollwait_pc, moves, releases, holds}
use dasynq.AttnLock.Invariant.{Inv, live-le}

pub wakes_attn-Inv :
    (a b : List ℕ) (s : System) (i : ℕ)
    → Inv a b s
    → s.pc i ≡ Pc.attn_waiting
    → Inv a b (moves i s (wake_attn i s.st) attn_pc)
unfolding wake_attn
wakes_attn-Inv [] b s i v e = absurd (ground (arith, v.members i, v.parked i))
wakes_attn-Inv (h ∷ t) b s i v e = elim (Bool-cases (h == i)) [
  | inl front ↦
      rw (at_head-first s.st i (h ∷ t) b v.queues, front)
        (record {
          queues = v.queues;
          members = λ j. ground (arith, v.members j);
          parked = λ j. ground (arith, v.parked j);
          served = record {
            awake = inl (ground arith);
            polling = ground (arith, v.served.polling);
            behind = λ j lt. ground (arith, v.served.behind j, v.members j);
            told = v.served.told;
          };
        })
  | inr back ↦
      rw (at_head-first s.st i (h ∷ t) b v.queues, back)
        (record {
          queues = record { attn = v.queues.attn; wait = v.queues.wait };
          members = λ j. ground (arith, v.members j);
          parked = λ j. ground (arith, v.parked j);
          served = record {
            awake = ground (arith, v.served.awake);
            polling = ground (arith, v.served.polling);
            behind = λ j lt. ground (arith, v.served.behind j);
            told = v.served.told;
          };
        })
]

pub wakes_pollwait-Inv :
    (a b : List ℕ) (s : System) (i : ℕ)
    → Inv a b s
    → s.pc i ≡ Pc.pollwait_waiting
    → Inv a b (moves i s (wake_pollwait i s.st) pollwait_pc)
unfolding wake_pollwait
wakes_pollwait-Inv [] [] s i v e = absurd (ground (arith, v.members i))
wakes_pollwait-Inv [] (k ∷ b) s i v e = absurd v.served
wakes_pollwait-Inv (h ∷ t) b s i v e = elim (Bool-cases (h == i)) [
  | inl front ↦
      rw (at_head-first s.st i (h ∷ t) b v.queues, front)
        (record {
          queues = record { attn = v.queues.attn; wait = v.queues.wait };
          members = λ j. ground (arith, v.members j);
          parked = λ j. ground (arith, v.parked j, v.members j);
          served = record {
            awake = inl (ground arith);
            polling = ground (arith, v.served.polling);
            behind = λ j lt. ground (arith, v.served.behind j, v.members j);
            told = ground (arith, v.served.told, v.served.polling);
          };
        })
  | inr back ↦
      rw (at_head-first s.st i (h ∷ t) b v.queues, back)
        (record {
          queues = record { attn = v.queues.attn; wait = v.queues.wait };
          members = λ j. ground (arith, v.members j);
          parked = λ j. ground (arith, v.parked j);
          served = record {
            awake = ground (arith, v.served.awake);
            polling = ground (arith, v.served.polling);
            behind = λ j lt. ground (arith, v.served.behind j);
            told = v.served.told;
          };
        })
]

-- The thread that holds the lock is the one at the head of attn_waitqueue.
pub holder_first :
    (a b : List ℕ) (s : System) (i : ℕ) → Inv a b s → holds (s.pc i) ≡ true → first a ≡ some i
holder_first [] b s i v e = absurd (ground (arith, v.members i, v.parked i))
holder_first (h ∷ t) b s i v e = ground (arith, v.members i, v.parked i, v.served.behind i)

-- The queues after release_lock.
abbrev pub after_release : List ℕ → List ℕ → List ℕ × List ℕ
after_release [] b = ([], b)
after_release (h ∷ k ∷ t) b = (k ∷ t, b)
after_release (h ∷ []) [] = ([], [])
after_release (h ∷ []) (k ∷ b) = (k ∷ [], b)

module _ (s : System) (i : ℕ) (e : holds (s.pc i) ≡ true) where
  releases-Inv-attn : (h k : ℕ) (t b : List ℕ) → Inv (h ∷ k ∷ t) b s → Inv (k ∷ t) b (releases i s)
  releases-Inv-attn h k t b v =
      let (qs, handed) = release_lock-attn s.st h k t b v.queues in
      let at : h ≡ i = ground (arith, holder_first (h ∷ k ∷ t) b s i v e) in
      record {
        queues = qs;
        members = λ j. ground (arith, v.members j, live-le (s.pc j));
        parked = λ j. ground (arith, v.parked j);
        served = record {
          awake = ground (arith, handed.signalled k);
          polling = ground (arith, handed.polling, v.served.behind k);
          behind = λ j lt. ground (arith, v.served.behind j, v.members j, live-le (s.pc j));
          told = λ l. absurd (ground (arith, handed.polling));
        };
      }

  releases-Inv-wait :
      (h k : ℕ) (b : List ℕ) → Inv (h ∷ []) (k ∷ b) s → Inv (k ∷ []) b (releases i s)
  releases-Inv-wait h k b v =
      let far : AreApart (k ∷ []) b = λ j. ground (arith, v.members j, live-le (s.pc j)) in
      let (qs, handed) = release_lock-wait s.st h k b v.queues far in
      let at : h ≡ i = ground (arith, holder_first (h ∷ []) (k ∷ b) s i v e) in
      record {
        queues = qs;
        members = λ j. ground (arith, v.members j, live-le (s.pc j));
        parked = λ j. ground (arith, v.parked j);
        served = record {
          awake = ground (arith, handed.signalled k);
          polling = ground (arith, handed.polling, v.parked k);
          behind = λ j lt. absurd (omega arith);
          told = λ l. inl refl;
        };
      }

  releases-Inv-none : (h : ℕ) → Inv (h ∷ []) [] s → Inv [] [] (releases i s)
  releases-Inv-none h v =
      let (qs, polling, signalled) = release_lock-none s.st h v.queues in
      let at : h ≡ i = ground (arith, holder_first (h ∷ []) [] s i v e) in
      record {
        queues = qs;
        members = λ j. ground (arith, v.members j);
        parked = λ j. ground (arith, v.parked j);
        served = polling;
      }

  pub releases-Inv :
      (a b : List ℕ) → Inv a b s → let (a', b') = after_release a b in Inv a' b' (releases i s)
  releases-Inv [] b v = absurd (ground (arith, holder_first [] b s i v e))
  releases-Inv (h ∷ k ∷ t) b v = releases-Inv-attn h k t b v
  releases-Inv (h ∷ []) [] v = releases-Inv-none h v
  releases-Inv (h ∷ []) (k ∷ b) v = releases-Inv-wait h k b v
