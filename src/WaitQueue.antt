-- ===== src/WaitQueue.antt =====
-- include/dasynq.h: the class templates waitqueue and waitqueue_node, a queue of waiting threads that is
-- linked through nodes on the threads' stacks. A node is a number, and `next` holds the `next` field of
-- every node, since several queues share the nodes. The condition variable of a node is in AttnLock.
pub mod Refine
mod Tests
use dasynq.Prelude.{ℕ, Bool, true, false, Option, none, some, ◌==◌, write}

pub record WaitQueue : Type 0 where
  pub tail : Option ℕ
  pub head : Option ℕ

abbrev pub Links : Type 0
Links = ℕ → Option ℕ

abbrev pub empty_queue : WaitQueue
empty_queue = record { tail = none; head = none }

-- What `p->next` reads; a null pointer is not followed by the code, and reads as null here.
abbrev pub follow : Links → Option ℕ → Option ℕ
follow next none = none
follow next (some n) = next n

-- The head is removed, and the new head is the result. Called on a queue that is not empty.
unfoldable pub unqueue : Links → WaitQueue → WaitQueue × Option ℕ
unqueue next q =
    let head = follow next q.head in
    (
      elim head [
        | none ↦ record { tail = none; head = none }
        | some h ↦ record q { head = some h }
      ],
      head,
    )

unfoldable pub get_head : WaitQueue → Option ℕ
get_head q = q.head

unfoldable pub get_second : Links → WaitQueue → Option ℕ
get_second next q = follow next q.head

abbrev pub points_to : Option ℕ → ℕ → Bool
points_to none node = false
points_to (some n) node = n == node

unfoldable pub check_head : WaitQueue → ℕ → Bool
check_head q node = points_to q.head node

unfoldable pub is_empty : WaitQueue → Bool
is_empty q = elim q.head [ none ↦ true | some _ ↦ false ]

unfoldable pub queue : ℕ → Links → WaitQueue → WaitQueue × Links
queue node next q =
    let next' = write next node none in
    elim q.tail [
      | some t ↦ (record q { tail = some node }, write next' t (some node))
      | none ↦ (record { head = some node; tail = some node }, next')
    ]
