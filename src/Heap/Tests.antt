-- ===== src/Heap/Tests.antt =====
-- Runs of the theorems about daryheap.h on a queue of three nodes.
use dasynq.Prelude.{
  ℕ, ◌+◌, ◌≡◌, ◌↔◌, ◌⊎◌, refl, none, some, Bool, true, false, ltb, ◌==◌, if◌then◌else◌, arith,
}
use dasynq.Prelude.Compare.{by_number}
use dasynq.Vector.{Allocator, Ends, ok}
use dasynq.Heap.{
  Node, Heap, insert, remove, pull_root, allocate, deallocate, set_priority, get_root,
  get_root_priority,
}
use dasynq.Heap.Order.{IsHeap}
use dasynq.Heap.Up.{seen}
use dasynq.Heap.Valid.{IsValid, IsOrdered, queued}
use dasynq.Heap.Insert.{insert_inserts, Inserted}
use dasynq.Heap.Remove.{remove-IsOrdered_iff, pull_root_pulls, Removed, Fits}
use dasynq.Heap.Reserve.{allocate-Ends, deallocate_keeps, Allocated}
use dasynq.Heap.Reprioritize.{set_priority_sets, set_priority_unordered, Changed}

abbrev storage : Allocator (Node ℕ)
storage = record {
  grants = λ n. ltb n 50;
  fresh = λ n. record { prio = 0; hnd = 0 };
  max_size = 100;
}

-- The handles 7, 8 and 9 under the priorities 1, 5 and 3; a fourth node is allocated.
abbrev three_nodes : Heap ℕ ℕ
three_nodes = record {
  hvec = record {
    array = λ i.
        if i == 0
        then record { prio = 1; hnd = 7 }
        else if i == 1
        then record { prio = 5; hnd = 8 }
        else record { prio = 3; hnd = 9 };
    size_v = 3;
    capacity_v = 8;
  };
  num_nodes = 4;
  heap_index =
      λ h. if h == 7 then some 0 else if h == 8 then some 1 else if h == 9 then some 2 else none;
  node_data = λ h. h;
}

three_nodes-IsValid : IsValid storage three_nodes
three_nodes-IsValid = record {
  room = omega arith;
  vector = record { within = omega arith; bounded = omega arith };
  reserved = omega arith;
  allocated = omega arith;
  indexed = record { forward = λ i a. ground arith; backward = λ g i e. ground arith };
}

three_nodes-IsOrdered : IsOrdered by_number three_nodes
three_nodes-IsOrdered = λ c a b. ground arith

insert_inserts_example :
    (r : Heap ℕ ℕ × Bool) × (insert ltb storage 4 0 three_nodes ≡ ok r)
    × Inserted by_number storage 4 0 three_nodes r
insert_inserts_example =
    insert_inserts by_number storage 4 0 three_nodes three_nodes-IsValid three_nodes-IsOrdered refl
      (omega arith)

remove-IsOrdered_iff_example :
    Removed by_number storage 8 three_nodes (remove ltb 8 three_nodes)
    × (IsOrdered by_number (remove ltb 8 three_nodes) ↔ Fits by_number storage 1 three_nodes)
remove-IsOrdered_iff_example =
    remove-IsOrdered_iff by_number storage 8 1 three_nodes three_nodes-IsValid three_nodes-IsOrdered
      refl

pull_root_pulls_example :
    ((g p : ℕ) → queued three_nodes g ≡ some p → ltb p (get_root_priority three_nodes) ≡ false)
    × Removed by_number storage (get_root three_nodes) three_nodes (pull_root ltb three_nodes)
    × IsOrdered by_number (pull_root ltb three_nodes)
pull_root_pulls_example =
    pull_root_pulls by_number storage three_nodes three_nodes-IsValid three_nodes-IsOrdered
      (omega arith)

allocate-Ends_example :
    Ends
      (Allocated by_number storage 4 44 three_nodes)
      ((◌≡◌ {A = ℕ} 4 100) ⊎ (ltb 5 50 ≡ false))
      (allocate storage 4 44 three_nodes)
allocate-Ends_example =
    allocate-Ends by_number storage 4 44 three_nodes three_nodes-IsValid three_nodes-IsOrdered refl

deallocate_keeps_example :
    IsValid storage (deallocate storage three_nodes)
    × (IsOrdered by_number three_nodes → IsOrdered by_number (deallocate storage three_nodes))
    × ((g : ℕ) → queued (deallocate storage three_nodes) g ≡ queued three_nodes g)
    × ((deallocate storage three_nodes).hvec.size_v ≡ 3)
    × ((deallocate storage three_nodes).num_nodes + 1 ≡ 4)
deallocate_keeps_example =
    deallocate_keeps by_number storage three_nodes three_nodes-IsValid (omega arith)

set_priority_sets_example :
    Changed by_number storage 9 0 three_nodes (set_priority ltb 9 0 three_nodes).0
    × (ltb 3 0 ≡ false
        → IsOrdered by_number (set_priority ltb 9 0 three_nodes).0
          × ((set_priority ltb 9 0 three_nodes).1
              ≡ (get_root (set_priority ltb 9 0 three_nodes).0 == 9)))
    × (ltb 3 0 ≡ true
        → IsHeap by_number (seen 2) (set_priority ltb 9 0 three_nodes).0.hvec.array
          × ((set_priority ltb 9 0 three_nodes).1 ≡ false))
set_priority_sets_example =
    set_priority_sets by_number storage 9 2 0 three_nodes three_nodes-IsValid three_nodes-IsOrdered
      (omega arith) refl

set_priority_unordered_example : ¬ IsOrdered by_number (set_priority ltb 7 4 three_nodes).0
set_priority_unordered_example =
    set_priority_unordered by_number storage 7 4 three_nodes three_nodes-IsValid
      three_nodes-IsOrdered refl refl refl refl
