-- ===== src/Timer/Data.antt =====
-- The user data of the nodes: what the queue does to it, and a change of it does to the queue.
use dasynq.Prelude.{ℕ, ◌-◌, ◌≡◌, inl, inr, ◌∙◌, sym, refl, ap, some, write, Bool, Bool-cases, ◌==◌}
use dasynq.Vector
use dasynq.Vector.{Allocator, Throws, ok, bad_alloc}
use dasynq.Heap.{Node, Heap, insert, pull_root, remove_h, bubble_up, bubble_down}
use dasynq.Heap.Valid.{IsValid}
use dasynq.Timer.Defs.{TimerStorage, TimerData, TimerQueue, set_data}

module _ {P T : Type 0} (lt : P → P → Bool) where
  bubble_up-node_data :
      (i h : ℕ) (p : P) (q : Heap P T) → (bubble_up lt i h p q).node_data ≡ q.node_data
  unfolding bubble_up
  bubble_up-node_data i h p q = elim (Bool-cases (q.hvec.size_v - 1 == 0)) [
    | inl e ↦ rw e
    | inr e ↦ rw e
  ]

  pub pull_root-node_data : (q : Heap P T) → (pull_root lt q).node_data ≡ q.node_data
  unfolding pull_root remove_h
  pull_root-node_data q = elim (Bool-cases (q.hvec.size_v == 1)) [
    | inl e ↦ rw e
    | inr e ↦ rw (e, bubble_up-node_data)
  ]

  module _ (q : Heap P T) where
    -- the user data that a call leaves, if the exception leaves those of `q`
    data_of : Throws (Heap P T × Bool) → ℕ → T
    data_of (ok r) = r.0.node_data
    data_of bad_alloc = q.node_data

    bubbled-node_data :
        (h : ℕ) (p : P) (x : Throws (Vector.Vector (Node P)))
        → data_of (elim x [
          | ok v ↦ ok (
              bubble_down lt
                (v.size_v - 1)
                h
                p
                (record q { hvec = v; heap_index = write q.heap_index h (some q.hvec.size_v) }))
          | bad_alloc ↦ bad_alloc
        ])
          ≡ q.node_data
    unfolding bubble_down data_of
    bubbled-node_data h p (ok v) = refl
    bubbled-node_data h p bad_alloc = refl

  pub insert-node_data :
      (al : Allocator (Node P)) (h : ℕ) (p : P) (q : Heap P T) (r : Heap P T × Bool)
      → insert lt al h p q ≡ ok r
      → r.0.node_data ≡ q.node_data
  unfolding insert data_of
  insert-node_data al h p q r e =
      sym (ap (data_of q) e) ∙ bubbled-node_data q h p (Vector.emplace_back al q.hvec)

-- A change of the user data leaves the queue valid and in order, with the same entries.
module _ {al : TimerStorage} (h : ℕ) (f : TimerData → TimerData) (q : TimerQueue) where
  pub set_data-IsValid : IsValid al q → IsValid al (set_data h f q)
  unfolding set_data
  set_data-IsValid v = record {
    room = v.room;
    vector = v.vector;
    reserved = v.reserved;
    allocated = v.allocated;
    indexed = v.indexed;
  }
