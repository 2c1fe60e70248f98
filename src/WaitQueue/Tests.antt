-- ===== src/WaitQueue/Tests.antt =====
-- Runs of the theorem about the wait queue.
use dasynq.Prelude.{none, some, [], ◌∷◌, ◌==◌, if◌then◌else◌, refl, arith}
use dasynq.WaitQueue.{WaitQueue, Links, queue, empty_queue}
use dasynq.WaitQueue.Refine.{IsQueue, AreApart, queue-IsQueue}

-- the nodes 4 and 6
abbrev two_nodes : WaitQueue
two_nodes = record { tail = some 6; head = some 4 }

abbrev links : Links
links = λ n. if n == 4 then some 6 else none

two_nodes-IsQueue : IsQueue links two_nodes (4 ∷ 6 ∷ [])
two_nodes-IsQueue = record { head = refl; tail = refl; linked = (refl, refl) }

no_nodes-IsQueue : IsQueue links empty_queue []
no_nodes-IsQueue = record { head = refl; tail = refl; linked = tt }

apart : AreApart (9 ∷ 4 ∷ 6 ∷ []) []
apart a = ground arith

queue-IsQueue_example :
    let (q, next) = queue 9 links two_nodes in
    IsQueue next q (4 ∷ 6 ∷ 9 ∷ []) × IsQueue next empty_queue []
queue-IsQueue_example =
    queue-IsQueue 9 links two_nodes empty_queue (4 ∷ 6 ∷ []) [] two_nodes-IsQueue no_nodes-IsQueue
      apart
