-- ===== src/AttnLock/Safety.antt =====
-- What the lock guarantees in every state that threads can bring about.
use dasynq.Prelude.{
  ℕ, ◌≡◌, ◌⊎◌, inl, inr, refl, true, false, none, List, [], ◌∷◌, ◌++◌, arith, Bool-cases,
}
use dasynq.WaitQueue.Refine.{is_empty-first}
use dasynq.AttnLock.{WaitState, at_head, poll_attn_lock, get_pollwait_lock, interrupt_if_necessary}
use dasynq.AttnLock.Calls.{is_nil, at_head-first}
use dasynq.AttnLock.System.{
  Pc, System, initial, pollwait_pc, moves, polls, holds, Step, attn, poll, pollwait, wakes_attn,
  wakes_pollwait, release, Reach, start, next,
}
use dasynq.AttnLock.Invariant.{Inv, live}
use dasynq.AttnLock.Invariant.Enter.{calls_attn-Inv, polls-Inv, pollwait-Inv, pollwait_behind-Inv}
use dasynq.AttnLock.Invariant.Leave.{
  wakes_attn-Inv, wakes_pollwait-Inv, releases-Inv, after_release, holder_first,
}

pub initial-Inv : Inv [] [] initial
initial-Inv = record {
  queues = record {
    attn = record { head = refl; tail = refl; linked = tt };
    wait = record { head = refl; tail = refl; linked = tt };
  };
  members = λ i. refl;
  parked = λ i. omega arith;
  served = refl;
}

-- What a step does to the order of the threads: the holder and those that wait for attention, in `a`, and
-- those that wait to poll, in `b`.
pub data Turn (a b : List ℕ) : List ℕ → List ℕ → Type 0 where
  stays : Turn a b a b
  joins : (i : ℕ) → Turn a b (a ++ i ∷ []) b
  parks : (i : ℕ) → is_nil a ≡ false → Turn a b a (b ++ i ∷ [])
  leaves : Turn a b (after_release a b).0 (after_release a b).1

abbrev pub Refines : List ℕ → List ℕ → System → Type 0
Refines a b u = (a' : List ℕ) × (b' : List ℕ) × Turn a b a' b' × Inv a' b' u

poll_attn_lock_busy :
    (i : ℕ) (st : WaitState) → st.long_poll_running ≡ true → poll_attn_lock i st ≡ none
unfolding poll_attn_lock
poll_attn_lock_busy i st e = rw e

poll-Refines :
    (a b : List ℕ) (s : System) (i : ℕ)
    → Inv a b s
    → s.pc i ≡ Pc.idle
    → Refines a b (polls i s (poll_attn_lock i s.st))
poll-Refines a b s i v e = elim (Bool-cases s.st.long_poll_running) [
  | inl busy ↦ (a, b, stays, rw (poll_attn_lock_busy i s.st busy) v)
  | inr quiet ↦ (a ++ i ∷ [], b, joins i, polls-Inv a b s i v e quiet)
]

pollwait-Refines :
    (a b : List ℕ) (s : System) (i : ℕ)
    → Inv a b s
    → s.pc i ≡ Pc.idle
    → Refines a b (moves i s (get_pollwait_lock i s.st) pollwait_pc)
pollwait-Refines [] b s i v e = (i ∷ [], b, joins i, pollwait-Inv b s i v e)
pollwait-Refines (h ∷ t) b s i v e =
    (h ∷ t, b ++ i ∷ [], parks i refl, pollwait_behind-Inv h t b s i v e)

-- Every step of every thread is a step of the two lists: a thread that asks for attention joins the end of
-- the first, a thread that asks to poll joins the end of the first if it is empty and of the second
-- otherwise, a thread that wakes up leaves both as they are, and a release takes the first thread out; only
-- if no other thread is left in the first list does the first thread of the second move over. The linked
-- queues hold the two lists before and after, and the invariant holds.
pub Step-Refines : (a b : List ℕ) (s u : System) → Inv a b s → Step s u → Refines a b u
Step-Refines a b s u v (attn i e) = (a ++ i ∷ [], b, joins i, calls_attn-Inv a b s i v e)
Step-Refines a b s u v (poll i e) = poll-Refines a b s i v e
Step-Refines a b s u v (pollwait i e) = pollwait-Refines a b s i v e
Step-Refines a b s u v (wakes_attn i e) = (a, b, stays, wakes_attn-Inv a b s i v e)
Step-Refines a b s u v (wakes_pollwait i e) = (a, b, stays, wakes_pollwait-Inv a b s i v e)
Step-Refines a b s u v (release i e) = (_, _, leaves, releases-Inv s i e a b v)

pub Reach-Inv : {s : System} → Reach s → (a : List ℕ) × (b : List ℕ) × Inv a b s
Reach-Inv start = ([], [], initial-Inv)
Reach-Inv (next r st) =
    let (a, b, v) = Reach-Inv r in let (a', b', _, v') = Step-Refines a b _ _ v st in (a', b', v')

-- In every reachable state, at most one thread holds the attention or poll-wait lock.
pub mutual_exclusion :
    {s : System} → Reach s → (i j : ℕ) → holds (s.pc i) ≡ true → holds (s.pc j) ≡ true → i ≡ j
mutual_exclusion {s} r i j hi hj =
    let (a, b, v) = Reach-Inv r in
    ground (arith, holder_first a b s i v hi, holder_first a b s j v hj)

served :
    (a b : List ℕ) (s : System) (i : ℕ)
    → Inv a b s
    → live (s.pc i) ≡ 1
    → (h : ℕ) × (at_head h s.st ≡ true) × ((holds (s.pc h) ≡ true) ⊎ (s.st.signalled h ≡ true))
served [] [] s i v e = absurd (ground (arith, v.members i))
served [] (k ∷ b) s i v e = absurd v.served
served (h ∷ t) b s i v e =
    (h, ground (arith, at_head-first s.st h (h ∷ t) b v.queues), v.served.awake)

-- In every reachable state, if any thread is in a call or holds the lock, there is a thread at the head of
-- attn_waitqueue, and it holds the lock or was notified since it last went to wait: no wake-up is lost.
pub no_lost_wakeup :
    {s : System}
    → Reach s
    → (i : ℕ) → live (s.pc i) ≡ 1
    → (h : ℕ) × (at_head h s.st ≡ true) × ((holds (s.pc h) ≡ true) ⊎ (s.st.signalled h ≡ true))
no_lost_wakeup {s} r i e = let (a, b, v) = Reach-Inv r in served a b s i v e

poll_interrupted :
    (a b : List ℕ) (s : System) (i : ℕ)
    → Inv a b s
    → s.pc i ≡ Pc.pollwait_held
    → (s.st.long_poll_running ≡ true)
      × (interrupt_if_necessary s.st ≡ true)
      × ((j : ℕ) → s.pc j ≡ Pc.attn_waiting → s.interrupted ≡ true)
unfolding interrupt_if_necessary
poll_interrupted [] b s i v e = absurd (ground (arith, v.members i, v.parked i))
poll_interrupted (h ∷ t) b s i v e =
    let at : h ≡ i = ground (arith, holder_first (h ∷ t) b s i v) in
    (
      ground (arith, v.served.polling),
      ground (arith, is_empty-first _ _ (h ∷ t) v.queues.attn),
      λ j w. ground (arith, v.served.told, v.served.polling, v.members j, v.parked j),
    )

-- In every reachable state in which a thread holds the lock through get_pollwait_lock, long_poll_running is
-- set, interrupt_if_necessary interrupts, and if any thread waits for attention then interrupt_wait was
-- called since the poll-waiter got the lock.
pub long_poll_interrupted :
    {s : System}
    → Reach s
    → (i : ℕ) → s.pc i ≡ Pc.pollwait_held
    → (s.st.long_poll_running ≡ true)
      × (interrupt_if_necessary s.st ≡ true)
      × ((j : ℕ) → s.pc j ≡ Pc.attn_waiting → s.interrupted ≡ true)
long_poll_interrupted {s} r i e = let (a, b, v) = Reach-Inv r in poll_interrupted a b s i v e
