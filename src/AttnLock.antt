-- ===== src/AttnLock.antt =====
-- include/dasynq.h: the attention and poll-wait lock of event_loop (get_attn_lock, poll_attn_lock,
-- get_pollwait_lock, release_lock, interrupt_if_necessary). Each of these functions runs under `wait_lock`
-- up to its return or up to a wait on the condition variable of its node, which releases `wait_lock`; such
-- a part is one function here, and one step of the relation in System.antt. The node of a thread is the
-- number of the thread: a thread has one node on its stack and takes part in one call at a time.
pub mod System
pub mod Calls
pub mod Invariant
pub mod Safety
mod Tests
use dasynq.Prelude.{ℕ, Bool, true, false, not, ◌&&◌, Option, none, some, ◌==◌, if◌then◌else◌, write}
use dasynq.WaitQueue
use dasynq.WaitQueue.{WaitQueue, Links}

-- The members that `wait_lock` protects, with the links of the nodes. `signalled n` says that the condition
-- variable of node `n` was notified since its thread last went to wait.
pub record WaitState : Type 0 where
  pub long_poll_running : Bool
  pub attn_waitqueue : WaitQueue
  pub wait_waitqueue : WaitQueue
  pub next : Links
  pub signalled : ℕ → Bool

abbrev pub no_waiters : WaitState
no_waiters = record {
  long_poll_running = false;
  attn_waitqueue = WaitQueue.empty_queue;
  wait_waitqueue = WaitQueue.empty_queue;
  next = λ n. none;
  signalled = λ n. false;
}

-- attn_waitqueue.queue(&qnode) and wait_waitqueue.queue(&qnode)
abbrev pub queue_attn : ℕ → WaitState → WaitState
queue_attn node s =
    let (q, next) = WaitQueue.queue node s.next s.attn_waitqueue in
    record s { attn_waitqueue = q; next = next }

abbrev pub queue_wait : ℕ → WaitState → WaitState
queue_wait node s =
    let (q, next) = WaitQueue.queue node s.next s.wait_waitqueue in
    record s { wait_waitqueue = q; next = next }

-- The test of the loops `while (! attn_waitqueue.check_head(qnode)) qnode.wait(ulock)`. The first time, and
-- after each return of `wait`, a thread that is not at the head goes to wait, not yet notified.
unfoldable pub at_head : ℕ → WaitState → Bool
at_head node s = WaitQueue.check_head s.attn_waitqueue node

abbrev pub go_to_wait : ℕ → WaitState → WaitState
go_to_wait node s = record s { signalled = write s.signalled node false }

abbrev pub signal : ℕ → WaitState → WaitState
signal node s = record s { signalled = write s.signalled node true }

-- The loop test, with what the thread does on each outcome: `done` sets what follows the loop.
abbrev pub test_head : ℕ → (WaitState → WaitState) → WaitState → WaitState × Bool
test_head node done s = if at_head node s then (done s, true) else (go_to_wait node s, false)

-- get_attn_lock up to the loop test: the state, whether the lock is held, and whether
-- `loop_mech.interrupt_wait()` was called.
unfoldable pub get_attn_lock : ℕ → WaitState → WaitState × Bool × Bool
unfolding at_head
get_attn_lock node s =
    let s' = queue_attn node s in
    let interrupt =
      not (at_head node s')
      && (s'.long_poll_running
          && WaitQueue.points_to (WaitQueue.get_second s'.next s'.attn_waitqueue) node) in
    let (s'', held) = test_head node (λ t. t) s' in (s'', held, interrupt)

-- poll_attn_lock: `none` if a long poll is running and the call returns false.
unfoldable pub poll_attn_lock : ℕ → WaitState → Option (WaitState × Bool)
unfolding at_head
poll_attn_lock node s =
    if s.long_poll_running then none else some (test_head node (λ t. t) (queue_attn node s))

abbrev pub start_long_poll : WaitState → WaitState
start_long_poll s = record s { long_poll_running = true }

unfoldable pub get_pollwait_lock : ℕ → WaitState → WaitState × Bool
unfolding at_head
get_pollwait_lock node s =
    let s' = if WaitQueue.is_empty s.attn_waitqueue then queue_attn node s else queue_wait node s in
    test_head node start_long_poll s'

-- `wait` returned, in the loop of get_attn_lock or poll_attn_lock, and in that of get_pollwait_lock.
unfoldable pub wake_attn : ℕ → WaitState → WaitState × Bool
unfolding at_head
wake_attn node s = test_head node (λ t. t) s

unfoldable pub wake_pollwait : ℕ → WaitState → WaitState × Bool
unfolding at_head
wake_pollwait node s = test_head node start_long_poll s

-- The part of release_lock where attn_waitqueue has become empty.
unfoldable pub promote : WaitState → WaitState
promote s = elim (WaitQueue.get_head s.wait_waitqueue) [
  | none ↦ s
  | some nhead ↦
      let (q, _) = WaitQueue.unqueue s.next s.wait_waitqueue in
      signal nhead
        (record (queue_attn nhead (record s { wait_waitqueue = q })) { long_poll_running = true })
]

unfoldable pub release_lock : WaitState → WaitState
unfolding promote
release_lock s =
    let (q, nhead) = WaitQueue.unqueue s.next s.attn_waitqueue in
    let s' = record s { long_poll_running = false; attn_waitqueue = q } in
    elim nhead [ some n ↦ signal n s' | none ↦ promote s' ]

-- Whether interrupt_if_necessary calls `loop_mech.interrupt_wait()`.
unfoldable pub interrupt_if_necessary : WaitState → Bool
interrupt_if_necessary s = not (WaitQueue.is_empty s.attn_waitqueue)
