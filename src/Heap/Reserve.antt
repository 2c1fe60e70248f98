-- ===== src/Heap/Reserve.antt =====
-- `allocate` and `deallocate` of daryheap.h: the vector always has room for every allocated node.
use dasynq.Prelude.{
  ℕ, ◌+◌, ◌-◌, ◌*◌, ◌/◌, ◌≤◌, ◌<◌, ◌≡◌, ◌⊎◌, inl, inr, refl, none, false, ltb, ◌==◌, if◌then◌else◌,
  arith, write, Bool-cases, Option-cases,
}
use dasynq.Prelude.Compare.{Compare}
use dasynq.Vector
use dasynq.Vector.{Allocator, Vector, Throws, ok, bad_alloc, Ends}
use dasynq.Vector.Capacity
use dasynq.Heap.{
  Node, Cells, Heap, cells, make_room, construct, allocate, deallocate, size_max, parent_of,
}
use dasynq.Heap.Index.{IsIndexed}
use dasynq.Heap.Order.{IsHeap}
use dasynq.Heap.Valid.{IsValid, IsOrdered, queued}

module _ {P : Type 0} where
  -- the same elements in the same cells, with at least the capacity asked for
  record Roomy (al : Allocator (Node P)) (n : ℕ) (v w : Vector (Node P)) : Type 0 where
    valid : Capacity.IsValid al w
    same : Capacity.SameElements al v w
    room : n ≤ w.capacity_v

  make_room-Ends :
      (al : Allocator (Node P)) (n : ℕ) (v : Vector (Node P))
      → 4 ≤ al.max_size
      → n ≤ al.max_size
      → Capacity.IsValid al v
      → Ends (Roomy al n v) (al.grants n ≡ false) (make_room al n v)
  unfolding make_room
  make_room-Ends al n v room fits valid =
      first _ (Vector.reserve al (if ltb n (al.max_size / 2) then n * 2 else al.max_size) v)
        (ground arith) (Capacity.reserve-Ends al _ v room valid)
    where
      roomy :
          (amount : ℕ) (w : Vector (Node P))
          → n ≤ amount
          → Capacity.IsValid al w × Capacity.SameElements al v w × (amount ≤ w.capacity_v)
          → Roomy al n v w
      roomy amount w le (valid', same, enough) = record {
        valid = valid';
        same = same;
        room = omega arith;
      }

      second :
          (r : Throws (Vector (Node P)))
          → Ends
              (λ w. Capacity.IsValid al w × Capacity.SameElements al v w × (n ≤ w.capacity_v))
              ((v.capacity_v < n) × ((al.max_size < n) ⊎ (al.grants n ≡ false)))
              r
          → Ends (Roomy al n v) (al.grants n ≡ false) r
      second (ok w) e = roomy n w (omega arith) e
      second bad_alloc e = ground arith

      first :
          (amount : ℕ) (r : Throws (Vector (Node P)))
          → n ≤ amount
          → Ends
              (λ w. Capacity.IsValid al w × Capacity.SameElements al v w × (amount ≤ w.capacity_v))
              ((v.capacity_v < amount) × ((al.max_size < amount) ⊎ (al.grants amount ≡ false)))
              r
          → Ends
              (Roomy al n v)
              (al.grants n ≡ false)
              (elim r [ ok w ↦ ok w | bad_alloc ↦ Vector.reserve al n v ])
      first amount (ok w) le e = roomy amount w le e
      first amount bad_alloc le e =
          second (Vector.reserve al n v) (Capacity.reserve-Ends al n v room valid)

  same-IsIndexed :
      (size : ℕ) (s t : Cells P)
      → ((i : ℕ) → i < size → t.cell i ≡ s.cell i)
      → ((h : ℕ) → t.heap_index h ≡ s.heap_index h)
      → IsIndexed size s
      → IsIndexed size t
  same-IsIndexed size s t same index v = record {
    forward = λ i a. ground (arith, same i, index (s.cell i).hnd, v.forward i a);
    backward = λ h i e. ground (arith, same i, index h, v.backward h i);
  }

  same_ordered :
      (cmp : Compare P) (size : ℕ) (cell cell' : ℕ → Node P)
      → ((i : ℕ) → i < size → cell' i ≡ cell i)
      → IsHeap cmp size cell
      → IsHeap cmp size cell'
  same_ordered cmp size cell cell' same o c a b = ground (arith, same c, same (parent_of c), o c)

module _ {P T : Type 0} (cmp : Compare P) (al : Allocator (Node P)) where
  -- What `allocate` returns: one node more, room for it, and the queue as it was.
  pub record Allocated (h : ℕ) (u : T) (q r : Heap P T) : Type 0 where
    pub valid : IsValid al r
    pub ordered : IsOrdered cmp r
    pub entries : (g : ℕ) → queued r g ≡ queued q g
    pub size : r.hvec.size_v ≡ q.hvec.size_v
    pub nodes : r.num_nodes ≡ q.num_nodes + 1
    pub stored : (g : ℕ) → r.node_data g ≡ (if g == h then u else q.node_data g)

  grown :
      (h : ℕ) (u : T) (q : Heap P T) (w : Vector (Node P))
      → IsValid al q
      → IsOrdered cmp q
      → q.heap_index h ≡ none
      → Roomy al (q.num_nodes + 1) q.hvec w
      → Allocated h u q (record q {
        hvec = w;
        num_nodes = q.num_nodes + 1;
        heap_index = write q.heap_index h none;
        node_data = write q.node_data h u;
      })
  grown h u q w v o free r =
      let index : (g : ℕ) → write q.heap_index h none g ≡ q.heap_index g = λ g. ground arith in
      record {
        valid = record {
          room = v.room;
          vector = r.valid;
          reserved = r.room;
          allocated = omega (arith, r.same.size, v.allocated);
          indexed =
              rw r.same.size
                (same-IsIndexed q.hvec.size_v (cells q) _ r.same.elements index v.indexed);
        };
        ordered =
            rw r.same.size (same_ordered cmp q.hvec.size_v q.hvec.array w.array r.same.elements o);
        entries = λ g. elim (Option-cases (q.heap_index g)) [
          | inl n ↦ ground (arith, n, index g)
          | inr (j, m) ↦ ground (arith, m, index g, r.same.elements j, v.indexed.backward g j)
        ];
        size = r.same.size;
        nodes = refl;
        stored = λ g. refl;
      }

  -- On a valid ordered queue, `allocate` of a handle that is not queued either returns a valid ordered
  -- queue with one node more, the same queued handles and the data stored for the handle alone, or it
  -- throws; it throws only at the largest number of nodes, or if the allocator refuses storage for
  -- just the nodes that are needed.
  pub allocate-Ends :
      (h : ℕ) (u : T) (q : Heap P T)
      → IsValid al q
      → IsOrdered cmp q
      → q.heap_index h ≡ none
      → Ends
          (Allocated h u q)
          ((q.num_nodes ≡ al.max_size) ⊎ (al.grants (q.num_nodes + 1) ≡ false))
          (allocate al h u q)
  unfolding allocate
  allocate-Ends h u q v o free = elim (Bool-cases (q.num_nodes == al.max_size)) [
    | inl full ↦ rw full (inl (ground arith))
    | inr some_left ↦ rw some_left (elim (Bool-cases (ltb q.hvec.capacity_v (q.num_nodes + 1))) [
      | inr enough ↦ rw enough (
          grown h u q q.hvec v o free (record {
            valid = v.vector;
            same = record { size = refl; elements = λ i a. refl };
            room = ground arith;
          }))
      | inl short ↦
          rw short
            (after _ (make_room-Ends al (q.num_nodes + 1) q.hvec v.room (fits some_left) v.vector))
    ])
  ]
    where
      fits : (q.num_nodes == al.max_size) ≡ false → q.num_nodes + 1 ≤ al.max_size
      fits e =
          let le : q.num_nodes ≤ al.max_size = omega (arith, v.reserved, v.vector.bounded) in
          ground arith

      after :
          (r : Throws (Vector (Node P)))
          → Ends (Roomy al (q.num_nodes + 1) q.hvec) (al.grants (q.num_nodes + 1) ≡ false) r
          → Ends
              (Allocated h u q)
              ((q.num_nodes ≡ al.max_size) ⊎ (al.grants (q.num_nodes + 1) ≡ false))
              (construct h u q r)
      after (ok w) e = grown h u q w v o free e
      after bad_alloc e = inr e

  -- On a valid queue with more allocated nodes than queued ones, `deallocate` (of a handle that is not
  -- queued) counts one node less, and keeps the queue valid, its size, every queued handle under its
  -- priority, and the order of the queue if it is ordered.
  pub deallocate_keeps :
      (q : Heap P T)
      → IsValid al q
      → q.hvec.size_v < q.num_nodes
      → IsValid al (deallocate al q)
        × (IsOrdered cmp q → IsOrdered cmp (deallocate al q))
        × ((g : ℕ) → queued (deallocate al q) g ≡ queued q g)
        × ((deallocate al q).hvec.size_v ≡ q.hvec.size_v)
        × ((deallocate al q).num_nodes + 1 ≡ q.num_nodes)
  unfolding deallocate
  deallocate_keeps q v more = elim (Bool-cases (ltb (q.num_nodes - 1) (q.hvec.capacity_v / 4))) [
    | inr e ↦
        rw (counted, e)
          (
            record {
              room = v.room;
              vector = v.vector;
              reserved = omega (arith, v.reserved);
              allocated = omega arith;
              indexed = v.indexed;
            },
            λ o. o,
            λ g. refl,
            refl,
            omega arith,
          )
    | inl e ↦
        let (valid, same, capacity) =
          Capacity.shrink_to_keeps al ((q.num_nodes - 1) * 2) q.hvec (omega arith) v.vector in
        rw (counted, e)
          (
            record {
              room = v.room;
              vector = valid;
              reserved = ground (arith, capacity);
              allocated = omega (arith, same.size);
              indexed =
                  rw same.size
                    (same-IsIndexed q.hvec.size_v (cells q) _ same.elements (λ h. refl) v.indexed);
            },
            λ o. rw same.size (same_ordered cmp q.hvec.size_v q.hvec.array _ same.elements o),
            λ g. elim (Option-cases (q.heap_index g)) [
              | inl n ↦ ground (arith, n)
              | inr (j, m) ↦ ground (arith, m, same.elements j, v.indexed.backward g j)
            ],
            same.size,
            omega arith,
          )
  ]
    where
      counted : (if q.num_nodes == 0 then size_max else q.num_nodes - 1) ≡ q.num_nodes - 1
      counted = ground arith
