-- ===== src/AttnLock/Calls.antt =====
-- What the functions of AttnLock.antt do to the two queues, seen as lists.
use dasynq.Prelude.{
  ℕ, ◌≡◌, refl, Bool, true, false, List, [], ◌∷◌, ◌++◌, ◌==◌, ◌&&◌, if◌then◌else◌, arith, first,
}
use dasynq.WaitQueue
use dasynq.WaitQueue.Refine.{
  IsQueue, AreApart, queue-IsQueue, unqueue-IsQueue, get_head-first, get_second-first,
  check_head-first, is_empty-first,
}
use dasynq.AttnLock.{
  WaitState, queue_attn, queue_wait, at_head, go_to_wait, get_attn_lock, get_pollwait_lock,
  release_lock, start_long_poll, promote,
}

-- attn_waitqueue holds `a` and wait_waitqueue holds `b`
pub record Queues (s : WaitState) (a b : List ℕ) : Type 0 where
  pub attn : IsQueue s.next s.attn_waitqueue a
  pub wait : IsQueue s.next s.wait_waitqueue b

abbrev pub is_nil : List ℕ → Bool
is_nil [] = true
is_nil (x ∷ xs) = false

module _ (s : WaitState) (i : ℕ) where
  pub queue_attn-Queues :
      (a b : List ℕ) → Queues s a b → AreApart (i ∷ a) b → Queues (queue_attn i s) (a ++ i ∷ []) b
  queue_attn-Queues a b v apart =
      let (attn, wait) =
        queue-IsQueue i s.next s.attn_waitqueue s.wait_waitqueue a b v.attn v.wait apart in
      record { attn = attn; wait = wait }

  pub queue_wait-Queues :
      (a b : List ℕ) → Queues s a b → AreApart (i ∷ a) b → Queues (queue_wait i s) a (b ++ i ∷ [])
  queue_wait-Queues a b v apart =
      let (wait, attn) =
        queue-IsQueue i s.next s.wait_waitqueue s.attn_waitqueue b a v.wait v.attn
          (λ x. omega (arith, apart x)) in
      record { attn = attn; wait = wait }

  pub at_head-first : (a b : List ℕ) → Queues s a b → at_head i s ≡ WaitQueue.points_to (first a) i
  unfolding at_head
  at_head-first a b v = check_head-first s.next s.attn_waitqueue a i v.attn

  points_away : (h : ℕ) (t b : List ℕ) → AreApart (i ∷ h ∷ t) b → (h == i) ≡ false
  points_away h t b apart = ground (arith, apart i)

  second_is_last :
      (h : ℕ) (t b : List ℕ)
      → AreApart (i ∷ h ∷ t) b
      → WaitQueue.points_to (first (t ++ i ∷ [])) i ≡ is_nil t
  second_is_last h [] b apart = ground arith
  second_is_last h (k ∷ t) b apart = ground (arith, apart i)

  -- Alone in attn_waitqueue, a thread has the lock at once.
  pub get_attn_lock_alone :
      (b : List ℕ)
      → Queues s [] b
      → AreApart (i ∷ []) b
      → get_attn_lock i s ≡ (queue_attn i s, true, false)
  unfolding get_attn_lock
  get_attn_lock_alone b v apart =
      let v' = queue_attn-Queues [] b v apart in
      let front : at_head i (queue_attn i s) ≡ true =
        ground (arith, check_head-first _ _ (i ∷ []) i v'.attn) in
      rw front

  pub get_attn_lock_behind :
      (h : ℕ) (t b : List ℕ)
      → Queues s (h ∷ t) b
      → AreApart (i ∷ h ∷ t) b
      → get_attn_lock i s ≡ (go_to_wait i (queue_attn i s), false, s.long_poll_running && is_nil t)
  unfolding get_attn_lock
  get_attn_lock_behind h t b v apart =
      let v' = queue_attn-Queues (h ∷ t) b v apart in
      let behind : at_head i (queue_attn i s) ≡ false =
        ground (arith, check_head-first _ _ (h ∷ t ++ i ∷ []) i v'.attn, points_away h t b apart) in
      rw (behind, get_second-first _ _ h (t ++ i ∷ []) v'.attn, second_is_last h t b apart) refl

  -- A call of get_pollwait_lock joins attn_waitqueue only if that is empty.
  pub get_pollwait_lock_alone :
      (b : List ℕ)
      → Queues s [] b
      → AreApart (i ∷ []) b
      → get_pollwait_lock i s ≡ (start_long_poll (queue_attn i s), true)
  unfolding get_pollwait_lock
  get_pollwait_lock_alone b v apart =
      let v' = queue_attn-Queues [] b v apart in
      let front : at_head i (queue_attn i s) ≡ true =
        ground (arith, check_head-first _ _ (i ∷ []) i v'.attn) in
      rw (is_empty-first _ _ [] v.attn, front)

  pub get_pollwait_lock_behind :
      (h : ℕ) (t b : List ℕ)
      → Queues s (h ∷ t) b
      → AreApart (i ∷ h ∷ t) b
      → get_pollwait_lock i s ≡ (go_to_wait i (queue_wait i s), false)
  unfolding get_pollwait_lock
  get_pollwait_lock_behind h t b v apart =
      let v' = queue_wait-Queues (h ∷ t) b v apart in
      let behind : at_head i (queue_wait i s) ≡ false =
        ground (arith, check_head-first _ _ (h ∷ t) i v'.attn, points_away h t b apart) in
      rw (is_empty-first _ _ (h ∷ t) v.attn, behind)

-- What release_lock leaves for the next thread, `k`: it is notified.
pub record Handed (s r : WaitState) (k : ℕ) (long : Bool) : Type 0 where
  pub polling : r.long_poll_running ≡ long
  pub signalled : (j : ℕ) → r.signalled j ≡ (if j == k then true else s.signalled j)

module _ (s : WaitState) (h : ℕ) where
  -- The next thread of attn_waitqueue gets the lock.
  pub release_lock-attn :
      (k : ℕ) (t b : List ℕ)
      → Queues s (h ∷ k ∷ t) b
      → Queues (release_lock s) (k ∷ t) b × Handed s (release_lock s) k false
  unfolding release_lock
  release_lock-attn k t b v =
      let (q, head) = unqueue-IsQueue s.next s.attn_waitqueue h (k ∷ t) v.attn in
      rw (head, release_lock)
        (record { attn = q; wait = v.wait }, record { polling = refl; signalled = λ j. refl })

  -- With no other thread in attn_waitqueue the first of wait_waitqueue gets the lock, for a long poll.
  pub release_lock-wait :
      (k : ℕ) (b : List ℕ)
      → Queues s (h ∷ []) (k ∷ b)
      → AreApart (k ∷ []) b
      → Queues (release_lock s) (k ∷ []) b × Handed s (release_lock s) k true
  unfolding release_lock
  release_lock-wait k b v apart =
      let (q, head) = unqueue-IsQueue s.next s.attn_waitqueue h [] v.attn in
      let (w, _) = unqueue-IsQueue s.next s.wait_waitqueue k b v.wait in
      let (attn, wait) = queue-IsQueue k s.next _ _ [] b q w apart in
      rw (head, release_lock, get_head-first _ _ (k ∷ b) v.wait, promote)
        (record { attn = attn; wait = wait }, record { polling = refl; signalled = λ j. refl })

  pub release_lock-none :
      Queues s (h ∷ []) []
      → Queues (release_lock s) [] []
        × ((release_lock s).long_poll_running ≡ false)
        × ((release_lock s).signalled ≡ s.signalled)
  unfolding release_lock
  release_lock-none v =
      let (q, head) = unqueue-IsQueue s.next s.attn_waitqueue h [] v.attn in
      rw (head, release_lock, get_head-first _ _ [] v.wait, promote)
        (record { attn = q; wait = v.wait }, refl, refl)
