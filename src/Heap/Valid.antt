-- ===== src/Heap/Valid.antt =====
-- The invariant of the queue: every allocated handle has a cell reserved for it, and the handles
-- that are queued point at their nodes.
use dasynq.Prelude.{
  ℕ, ◌≤◌, ◌<◌, ◌≡◌, inl, inr, Option, some, arith, ◌==◌, if◌then◌else◌, Option-cases,
}
use dasynq.Prelude.Compare.{Compare}
use dasynq.Vector.{Allocator}
use dasynq.Vector.Capacity
use dasynq.Heap.{Node, Heap, cells, get_root, get_root_priority}
use dasynq.Heap.Index.{IsIndexed, view}
use dasynq.Heap.Order.{IsHeap}

module _ {P T : Type 0} where
  pub record IsValid (al : Allocator (Node P)) (q : Heap P T) : Type 0 where
    pub room : 4 ≤ al.max_size
    pub vector : Capacity.IsValid al q.hvec
    pub reserved : q.num_nodes ≤ q.hvec.capacity_v
    pub allocated : q.hvec.size_v ≤ q.num_nodes
    pub indexed : IsIndexed q.hvec.size_v (cells q)

  abbrev pub IsOrdered : Compare P → Heap P T → Type 0
  IsOrdered cmp q = IsHeap cmp q.hvec.size_v q.hvec.array

  -- The queue as a partial map from handles to priorities.
  abbrev pub queued : Heap P T → ℕ → Option P
  queued q = view (cells q)

-- A partial map with one entry changed.
abbrev pub update : {P : Type 0} → (ℕ → Option P) → ℕ → Option P → ℕ → Option P
update m h v g = if g == h then v else m g

module _ {P T : Type 0} {al : Allocator (Node P)} where
  -- a queued handle has a position, where its priority stands
  pub queued_position :
      (q : Heap P T) (h : ℕ) (p : P)
      → IsValid al q
      → queued q h ≡ some p
      → (i : ℕ) × (q.heap_index h ≡ some i)
        × (i < q.hvec.size_v)
        × ((q.hvec.array i).hnd ≡ h)
        × ((q.hvec.array i).prio ≡ p)
  queued_position q h p v e = elim (Option-cases (q.heap_index h)) [
    | inl n ↦ absurd (ground (arith, n))
    | inr (i, m) ↦
        let (inside, at) = v.indexed.backward h i m in (i, m, inside, at, ground (arith, m))
  ]

  -- the handle at the root is queued under the priority at the root
  pub queued-get_root :
      (q : Heap P T)
      → IsValid al q
      → 0 < q.hvec.size_v
      → queued q (get_root q) ≡ some (get_root_priority q)
  unfolding get_root get_root_priority
  queued-get_root q v some_node = ground (arith, v.indexed.forward 0)
