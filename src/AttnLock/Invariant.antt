-- ===== src/AttnLock/Invariant.antt =====
-- Which threads stand in which queue of the attention lock.
pub mod Enter
pub mod Leave
use dasynq.Prelude.{
  ℕ, ◌+◌, ◌≤◌, ◌<◌, ◌≡◌, ◌⊎◌, inl, inr, refl, Bool, true, false, Option, none, some, List, [], ◌∷◌,
  ◌++◌, ◌==◌, ◌&&◌, if◌then◌else◌, write, arith, count, count-append, first, Bool-cases,
}
use dasynq.WaitQueue
use dasynq.WaitQueue.Refine.{AreApart}
use dasynq.AttnLock.{
  WaitState, at_head, get_attn_lock, poll_attn_lock, get_pollwait_lock, wake_attn, wake_pollwait,
  release_lock, queue_attn,
}
use dasynq.AttnLock.Calls.{
  Queues, is_nil, queue_attn-Queues, queue_wait-Queues, at_head-first, get_attn_lock_alone,
  get_attn_lock_behind, get_pollwait_lock_alone, get_pollwait_lock_behind, release_lock-attn,
  release_lock-wait, release_lock-none,
}
use dasynq.AttnLock.System.{
  Pc, System, initial, attn_pc, pollwait_pc, moves, calls_attn, polls, releases, holds, Step, attn,
  poll, pollwait, wakes_attn, wakes_pollwait, release, Reach, start, next,
}

-- whether the thread's node is in a queue
abbrev pub live : Pc → ℕ
live Pc.idle = 0
live Pc.attn_waiting = 1
live Pc.pollwait_waiting = 1
live Pc.attn_held = 1
live Pc.pollwait_held = 1

-- whether it may be in wait_waitqueue
abbrev pub parks : Pc → ℕ
parks Pc.pollwait_waiting = 1
parks Pc.idle = 0
parks Pc.attn_waiting = 0
parks Pc.attn_held = 0
parks Pc.pollwait_held = 0

-- whether the call is get_pollwait_lock
abbrev pub is_long : Pc → Bool
is_long Pc.pollwait_waiting = true
is_long Pc.pollwait_held = true
is_long Pc.idle = false
is_long Pc.attn_waiting = false
is_long Pc.attn_held = false

-- The thread at the head of attn_waitqueue, `h`, and those behind it.
pub record Head (h : ℕ) (t : List ℕ) (s : System) : Type 0 where
  -- it has the lock, or was notified
  pub awake : (holds (s.pc h) ≡ true) ⊎ (s.st.signalled h ≡ true)
  pub polling : s.st.long_poll_running ≡ is_long (s.pc h)
  pub behind : (i : ℕ) → 0 < count i t → s.pc i ≡ Pc.attn_waiting
  pub told : s.st.long_poll_running ≡ true → (is_nil t ≡ true) ⊎ (s.interrupted ≡ true)

abbrev pub IsServed : List ℕ → List ℕ → System → Type 0
IsServed [] [] s = s.st.long_poll_running ≡ false
IsServed [] (k ∷ b) s = ⊥
IsServed (h ∷ t) b s = Head h t s

pub record Inv (a b : List ℕ) (s : System) : Type 0 where
  pub queues : Queues s.st a b
  pub members : (i : ℕ) → count i a + count i b ≡ live (s.pc i)
  pub parked : (i : ℕ) → count i b ≤ parks (s.pc i)
  pub served : IsServed a b s

pub live-le : (p : Pc) → live p ≤ 1
live-le p = ground arith

-- A thread that is outside has no node in the queues.
pub apart : (a b : List ℕ) (s : System) (i : ℕ) → Inv a b s → s.pc i ≡ Pc.idle → AreApart (i ∷ a) b
apart a b s i v e x = ground (arith, v.members x, v.members i, live-le (s.pc x))
