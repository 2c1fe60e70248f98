-- ===== src/AttnLock/Tests.antt =====
-- Runs of the theorems about the attention lock.
use dasynq.Prelude.{ℕ, ◌≡◌, ◌⊎◌, refl, true, [], ◌∷◌}
use dasynq.WaitQueue
use dasynq.AttnLock.{at_head, get_attn_lock, get_pollwait_lock, interrupt_if_necessary}
use dasynq.AttnLock.System.{
  Pc, System, initial, calls_attn, moves, pollwait_pc, holds, releases, Reach, start, next, attn,
  pollwait, release,
}
use dasynq.AttnLock.Safety.{
  initial-Inv, Refines, Step-Refines, mutual_exclusion, no_lost_wakeup, long_poll_interrupted,
}
use dasynq.AttnLock.Invariant.{Inv}
use dasynq.AttnLock.Invariant.Enter.{calls_attn-Inv, pollwait-Inv}

-- thread 1 polls
abbrev polling : System
polling = moves 1 initial (get_pollwait_lock 1 initial.st) pollwait_pc

-- thread 2 asks for attention
abbrev contended : System
contended = calls_attn 2 polling (get_attn_lock 2 polling.st)

polling-Reach : Reach polling
polling-Reach = next start (pollwait 1 refl)

contended-Reach : Reach contended
unfolding get_pollwait_lock WaitQueue.queue WaitQueue.check_head WaitQueue.is_empty
contended-Reach = next polling-Reach (attn 2 refl)

polling-Inv : Inv (1 ∷ []) [] polling
polling-Inv = pollwait-Inv [] initial 1 initial-Inv refl

contended-Inv : Inv (1 ∷ 2 ∷ []) [] contended
unfolding get_pollwait_lock WaitQueue.queue WaitQueue.check_head WaitQueue.is_empty
contended-Inv = calls_attn-Inv (1 ∷ []) [] polling 2 polling-Inv refl

Step-Refines_example : Refines (1 ∷ 2 ∷ []) [] (releases 1 contended)
unfolding get_pollwait_lock get_attn_lock WaitQueue.queue WaitQueue.check_head WaitQueue.is_empty
Step-Refines_example =
    Step-Refines (1 ∷ 2 ∷ []) [] contended (releases 1 contended) contended-Inv (release 1 refl)

mutual_exclusion_example : ◌≡◌ {A = ℕ} 1 1
unfolding get_pollwait_lock get_attn_lock WaitQueue.queue WaitQueue.check_head WaitQueue.is_empty
mutual_exclusion_example = mutual_exclusion contended-Reach 1 1 refl refl

no_lost_wakeup_example :
    (h : ℕ) × (at_head h contended.st ≡ true)
    × ((holds (contended.pc h) ≡ true) ⊎ (contended.st.signalled h ≡ true))
unfolding get_pollwait_lock get_attn_lock WaitQueue.queue WaitQueue.check_head WaitQueue.is_empty
no_lost_wakeup_example = no_lost_wakeup contended-Reach 2 refl

long_poll_interrupted_example :
    (contended.st.long_poll_running ≡ true)
    × (interrupt_if_necessary contended.st ≡ true)
    × ((j : ℕ) → contended.pc j ≡ Pc.attn_waiting → contended.interrupted ≡ true)
unfolding get_pollwait_lock get_attn_lock WaitQueue.queue WaitQueue.check_head WaitQueue.is_empty
long_poll_interrupted_example = long_poll_interrupted contended-Reach 1 refl
