-- ===== src/Heap/Insert.antt =====
-- `insert` of daryheap.h.
use dasynq.Prelude.{ℕ, ◌+◌, ◌-◌, ◌<◌, ◌≡◌, ◌∙◌, refl, none, some, Bool, ◌==◌, arith, write}
use dasynq.Prelude.Compare.{Compare}
use dasynq.Vector.{Allocator, ok}
use dasynq.Vector.Capacity.{emplace_back-fits}
use dasynq.Heap.{Node, Cells, Heap, cells, place, bubble_down, bubble_down_loop, insert, get_root}
use dasynq.Heap.Index.{IsIndexed, view, bubble_down_loop-Keeps}
use dasynq.Heap.Order.{IsHeap, LowInv, bubble_down_loop-IsHeap}
use dasynq.Heap.Valid.{IsValid, IsOrdered, queued, update}

module _ {P : Type 0} where
  -- the cells when the loop starts: the handle is already told the position of the new cell
  abbrev start : ℕ → ℕ → Cells P → Cells P
  start size h s = record s { heap_index = write s.heap_index h (some size) }

  place-IsIndexed :
      (size h : ℕ) (p : P) (s : Cells P)
      → s.heap_index h ≡ none
      → IsIndexed size s
      → IsIndexed (size + 1) (place size h p (start size h s))
  place-IsIndexed size h p s free v = record {
    forward = λ i a. ground (arith, v.forward i);
    backward = λ g i e. ground (arith, v.backward g i, v.forward i);
  }

  place-view :
      (size h : ℕ) (p : P) (s : Cells P)
      → IsIndexed size s
      → (g : ℕ) → view (place size h p (start size h s)) g ≡ update (view s) h (some p) g
  place-view size h p s v g = ground (arith, v.backward g size)

module _ {P : Type 0} (cmp : Compare P) where
  place-LowInv :
      (size h : ℕ) (p : P) (s : Cells P)
      → IsHeap cmp size s.cell
      → LowInv cmp (size + 1) size (place size h p s).cell
  place-LowInv size h p s o = record {
    inside = omega arith;
    edges = λ c a b ne. ground (arith, o c);
    bridged = λ c a b at up. absurd (omega arith);
  }

module _ {P T : Type 0} (cmp : Compare P) (al : Allocator (Node P)) where
  -- What `insert` returns: the queue with the new entry, ordered, and whether it is at the root.
  pub record Inserted (h : ℕ) (p : P) (q : Heap P T) (r : Heap P T × Bool) : Type 0 where
    pub valid : IsValid al r.0
    pub ordered : IsOrdered cmp r.0
    pub entries : (g : ℕ) → queued r.0 g ≡ update (queued q) h (some p) g
    pub size : r.0.hvec.size_v ≡ q.hvec.size_v + 1
    pub nodes : r.0.num_nodes ≡ q.num_nodes
    pub root : r.1 ≡ (get_root r.0 == h)

  bubble_down_inserts :
      (h : ℕ) (p : P) (q : Heap P T)
      → IsValid al q
      → IsOrdered cmp q
      → q.heap_index h ≡ none
      → q.hvec.size_v < q.num_nodes
      → let v = record q.hvec { size_v = q.hvec.size_v + 1 } in
        Inserted h p q (
          bubble_down cmp.lt q.hvec.size_v h p
            (record q { hvec = v; heap_index = write q.heap_index h (some q.hvec.size_v) }))
  unfolding bubble_down get_root
  bubble_down_inserts h p q v o free room =
      let n = q.hvec.size_v in
      let s = start n h (cells q) in
      let loop = bubble_down_loop cmp.lt n n p s in
      let kept =
        bubble_down_loop-Keeps cmp.lt n (n + 1) n h p s (omega arith)
          (place-IsIndexed n h p (cells q) free v.indexed) in
      record {
        valid = record {
          room = v.room;
          vector = record { within = omega (arith, v.reserved); bounded = v.vector.bounded };
          reserved = v.reserved;
          allocated = omega arith;
          indexed = kept.1.indexed;
        };
        ordered =
            bubble_down_loop-IsHeap cmp n (n + 1) n h p s (omega arith)
              (place-LowInv cmp n h p s o);
        entries = λ g. kept.1.same g ∙ place-view n h p (cells q) v.indexed g;
        size = refl;
        nodes = refl;
        root = ground (arith, kept.1.indexed.forward 0);
      }

  -- On a valid ordered queue with an allocated handle that is not queued, which leaves at least one
  -- allocated node out of the queue, `insert` returns, whatever the allocator does. The queue stays
  -- valid and ordered, holds the handle under its priority and each other handle as before, has one
  -- node more in the vector, and the result tells whether the handle is at the root.
  pub insert_inserts :
      (h : ℕ) (p : P) (q : Heap P T)
      → IsValid al q
      → IsOrdered cmp q
      → q.heap_index h ≡ none
      → q.hvec.size_v < q.num_nodes
      → (r : Heap P T × Bool) × (insert cmp.lt al h p q ≡ ok r) × Inserted h p q r
  unfolding insert
  insert_inserts h p q v o free room =
      let same : q.hvec.size_v + 1 - 1 ≡ q.hvec.size_v = omega arith in
      (
        _,
        rw (emplace_back-fits al q.hvec (omega (arith, v.reserved)), insert, same),
        bubble_down_inserts h p q v o free room,
      )
