-- ===== src/AttnLock/System.antt =====
-- Any number of threads that call the functions of AttnLock.antt, interleaved in any order. A wait on a
-- condition variable may return at any time, notified or not.
use dasynq.Prelude.{ℕ, ◌≡◌, Bool, true, false, ◌||◌, Option, none, some, if◌then◌else◌, write}
use dasynq.AttnLock.{
  WaitState, no_waiters, get_attn_lock, poll_attn_lock, get_pollwait_lock, wake_attn, wake_pollwait,
  release_lock,
}

-- Where a thread stands: outside, in the loop of get_attn_lock or poll_attn_lock, in that of
-- get_pollwait_lock, or past the loop, before the call of release_lock.
pub data Pc : Type 0 where
  idle attn_waiting pollwait_waiting attn_held pollwait_held : Pc

-- `interrupted`: whether interrupt_wait was called since the lock last changed hands.
pub record System : Type 0 where
  pub st : WaitState
  pub interrupted : Bool
  pub pc : ℕ → Pc

abbrev pub initial : System
initial = record { st = no_waiters; interrupted = false; pc = λ i. Pc.idle }

abbrev pub attn_pc : Bool → Pc
attn_pc held = if held then Pc.attn_held else Pc.attn_waiting

abbrev pub pollwait_pc : Bool → Pc
pollwait_pc held = if held then Pc.pollwait_held else Pc.pollwait_waiting

abbrev pub moves : ℕ → System → WaitState × Bool → (Bool → Pc) → System
moves i s (st, held) to = record s { st = st; pc = write s.pc i (to held) }

abbrev pub calls_attn : ℕ → System → WaitState × Bool × Bool → System
calls_attn i s (st, held, interrupt) = record {
  st = st;
  interrupted = s.interrupted || interrupt;
  pc = write s.pc i (attn_pc held);
}

-- poll_attn_lock may return at once, without the lock
abbrev pub polls : ℕ → System → Option (WaitState × Bool) → System
polls i s none = s
polls i s (some r) = moves i s r attn_pc

abbrev pub releases : ℕ → System → System
releases i s = record { st = release_lock s.st; interrupted = false; pc = write s.pc i Pc.idle }

abbrev pub holds : Pc → Bool
holds Pc.attn_held = true
holds Pc.pollwait_held = true
holds Pc.idle = false
holds Pc.attn_waiting = false
holds Pc.pollwait_waiting = false

pub data Step (s : System) : System → Type 0 where
  attn : (i : ℕ) → s.pc i ≡ Pc.idle → Step s (calls_attn i s (get_attn_lock i s.st))
  poll : (i : ℕ) → s.pc i ≡ Pc.idle → Step s (polls i s (poll_attn_lock i s.st))
  pollwait : (i : ℕ) → s.pc i ≡ Pc.idle → Step s (moves i s (get_pollwait_lock i s.st) pollwait_pc)
  wakes_attn : (i : ℕ) → s.pc i ≡ Pc.attn_waiting → Step s (moves i s (wake_attn i s.st) attn_pc)
  wakes_pollwait :
      (i : ℕ) → s.pc i ≡ Pc.pollwait_waiting → Step s (moves i s (wake_pollwait i s.st) pollwait_pc)
  release : (i : ℕ) → holds (s.pc i) ≡ true → Step s (releases i s)

pub data Reach : System → Type 0 where
  start : Reach initial
  next : {s t : System} → Reach s → Step s t → Reach t
