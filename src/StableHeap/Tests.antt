-- ===== src/StableHeap/Tests.antt =====
-- Runs of the theorems about stableheap.h on a queue of two entries of one priority.
use dasynq.Prelude.{ℕ, ◌+◌, ◌≡◌, ◌≢◌, refl, none, some, Bool, ltb, ◌==◌, if◌then◌else◌, arith}
use dasynq.Prelude.Compare.{by_number}
use dasynq.Vector.{Allocator, ok}
use dasynq.Heap
use dasynq.Heap.{Node}
use dasynq.Heap.Valid
use dasynq.Heap.Valid.{IsOrdered, update}
use dasynq.StableHeap.Defs.{
  StablePrio, StableHeap, insert, pull_root, get_root, compare_stable_prio, stamp,
}
use dasynq.StableHeap.Order.{stable_compare}
use dasynq.StableHeap.Fifo.{IsValid, Inserted, Before, entries, insert_stamps, pull_root_first}

abbrev storage : Allocator (Node (StablePrio ℕ))
storage = record {
  grants = λ n. ltb n 50;
  fresh = λ n. record { prio = stamp 0 0; hnd = 0 };
  max_size = 100;
}

-- The handles 7 and 8, both under the priority 50, with the sequence numbers 0 and 3.
abbrev two_entries : StableHeap ℕ ℕ
two_entries = record {
  base = record {
    hvec = record {
      array = λ i.
          if i == 0
          then record { prio = stamp 50 0; hnd = 7 }
          else record { prio = stamp 50 3; hnd = 8 };
      size_v = 2;
      capacity_v = 8;
    };
    num_nodes = 3;
    heap_index = λ h. if h == 7 then some 0 else if h == 8 then some 1 else none;
    node_data = λ h. h;
  };
  sequence = 4;
}

two_entries-base : Valid.IsValid storage two_entries.base
two_entries-base = record {
  room = omega arith;
  vector = record { within = omega arith; bounded = omega arith };
  reserved = omega arith;
  allocated = omega arith;
  indexed = record { forward = λ i a. ground arith; backward = λ g i e. ground arith };
}

two_entries-IsValid : IsValid storage two_entries
two_entries-IsValid = record {
  base = two_entries-base;
  fresh = λ h a e. ground arith;
  distinct = λ g h a b e f same. ground arith;
}

two_entries-IsOrdered : IsOrdered (stable_compare by_number) two_entries.base
unfolding compare_stable_prio
two_entries-IsOrdered = λ c a b. ground arith

insert_stamps_example :
    (r : StableHeap ℕ ℕ × Bool) × (insert ltb storage 4 50 two_entries ≡ ok r)
    × Inserted by_number storage 4 50 two_entries r
insert_stamps_example =
    insert_stamps by_number storage 4 50 two_entries two_entries-IsValid two_entries-IsOrdered refl
      (omega arith) (omega arith)

pull_root_first_example :
    ((h : ℕ) (b : StablePrio ℕ)
      → h ≢ get_root two_entries
      → entries two_entries h ≡ some b
      → Before by_number (stamp 50 0) b)
    × IsValid storage (pull_root ltb two_entries)
    × IsOrdered (stable_compare by_number) (pull_root ltb two_entries).base
    × ((h : ℕ)
        → entries (pull_root ltb two_entries) h
          ≡ update (entries two_entries) (get_root two_entries) none h)
    × ((pull_root ltb two_entries).sequence ≡ two_entries.sequence)
    × ((pull_root ltb two_entries).base.hvec.size_v + 1 ≡ 2)
    × ((pull_root ltb two_entries).base.num_nodes ≡ 3)
unfolding get_root Heap.get_root
pull_root_first_example =
    pull_root_first by_number storage two_entries (stamp 50 0) two_entries-IsValid
      two_entries-IsOrdered refl
