-- ===== src/StableHeap/Fifo.antt =====
-- The queue serves entries of one priority in the order of their insertion.
use dasynq.Prelude.{
  ℕ, ◌+◌, ◌%◌, ◌<◌, ◌≡◌, ◌≢◌, ◌⊎◌, refl, sym, Option, none, some, Bool, true, false, ◌==◌, arith,
}
use dasynq.Prelude.Compare.{Compare}
use dasynq.Vector.{Allocator, ok}
use dasynq.Heap
use dasynq.Heap.{Heap, Node}
use dasynq.Heap.Valid
use dasynq.Heap.Valid.{queued_position, queued-get_root, IsOrdered, queued, update}
use dasynq.Heap.Insert.{insert_inserts}
use dasynq.Heap.Remove.{pull_root_pulls}
use dasynq.StableHeap.Defs.{
  StablePrio, StableHeap, compare_stable_prio, stamp, u64_mod, insert, pull_root, get_root,
}
use dasynq.StableHeap.Order.{stable_compare}

module _ {P T : Type 0} where
  -- The handles with their priorities and sequence numbers.
  abbrev pub entries : StableHeap P T → ℕ → Option (StablePrio P)
  entries q = queued q.base

  pub record IsValid (al : Allocator (Node (StablePrio P))) (q : StableHeap P T) : Type 0 where
    pub base : Valid.IsValid al q.base
    pub fresh : (h : ℕ) (a : StablePrio P) → entries q h ≡ some a → a.order < q.sequence
    pub distinct :
        (g h : ℕ) (a b : StablePrio P)
        → entries q g ≡ some a
        → entries q h ≡ some b
        → a.order ≡ b.order
        → g ≡ h

-- `a` leaves the queue before `b`: its priority comes before that of `b`, or neither comes before the
-- other and it was inserted earlier.
abbrev pub Before : {P : Type 0} → Compare P → StablePrio P → StablePrio P → Type 0
Before cmp a b = (cmp.lt a.p b.p ≡ true) ⊎ ((cmp.lt b.p a.p ≡ false) × (a.order < b.order))

module _ {P : Type 0} (cmp : Compare P) where
  Before-of :
      (a b : StablePrio P)
      → compare_stable_prio cmp.lt b a ≡ false
      → a.order ≢ b.order
      → Before cmp a b
  unfolding compare_stable_prio
  Before-of a b e ne = ground arith

module _ {P T : Type 0} (cmp : Compare P) (al : Allocator (Node (StablePrio P))) where
  -- What `insert` returns: the new entry has the largest sequence number.
  pub record Inserted (h : ℕ) (p : P) (q : StableHeap P T) (r : StableHeap P T × Bool)
      : Type 0 where
    pub valid : IsValid al r.0
    pub ordered : IsOrdered (stable_compare cmp) r.0.base
    pub entry : (g : ℕ) → entries r.0 g ≡ update (entries q) h (some (stamp p q.sequence)) g
    pub counted : r.0.sequence ≡ q.sequence + 1
    pub root : r.1 ≡ (get_root r.0 == h)
    pub size : r.0.base.hvec.size_v ≡ q.base.hvec.size_v + 1
    pub nodes : r.0.base.num_nodes ≡ q.base.num_nodes

  -- On a valid ordered queue that has an allocated node to spare, while the counter has not reached its
  -- largest value, `insert` of a handle that is not queued returns, adds the entry under a sequence
  -- number above those of all other entries, which stay, and leaves the queue valid and ordered, with one
  -- node more in the vector and as many allocated.
  pub insert_stamps :
      (h : ℕ) (p : P) (q : StableHeap P T)
      → IsValid al q
      → IsOrdered (stable_compare cmp) q.base
      → q.base.heap_index h ≡ none
      → q.base.hvec.size_v < q.base.num_nodes
      → q.sequence + 1 < u64_mod
      → (r : StableHeap P T × Bool) × (insert cmp.lt al h p q ≡ ok r) × Inserted h p q r
  unfolding insert get_root
  insert_stamps h p q v o free spare counter =
      let (r, returned, i) =
        insert_inserts (stable_compare cmp) al h (stamp p q.sequence) q.base v.base o free spare in
      let next : (q.sequence + 1) % u64_mod ≡ q.sequence + 1 = omega arith in
      (
        (record { base = r.0; sequence = q.sequence + 1 }, r.1),
        rw (returned, next),
        record {
          valid = record {
            base = i.valid;
            fresh = λ g a e. ground (arith, i.entries g, v.fresh g a);
            distinct = λ g k a b e f same.
                ground
                  (arith, i.entries g, i.entries k, v.fresh g a, v.fresh k b, v.distinct g k a b);
          };
          ordered = i.ordered;
          entry = i.entries;
          counted = refl;
          root = i.root;
          size = i.size;
          nodes = i.nodes;
        },
      )

  -- On a valid ordered queue whose root is queued under `a`, every other queued entry leaves after `a`:
  -- it does not come before `a`, and if `a` does not come before it either, it was inserted later.
  -- `pull_root` takes out the root alone, keeps the counter and the number of allocated nodes, and leaves
  -- the queue valid and ordered, with one node less in the vector.
  pub pull_root_first :
      (q : StableHeap P T) (a : StablePrio P)
      → IsValid al q
      → IsOrdered (stable_compare cmp) q.base
      → entries q (get_root q) ≡ some a
      → ((h : ℕ) (b : StablePrio P) → h ≢ get_root q → entries q h ≡ some b → Before cmp a b)
        × IsValid al (pull_root cmp.lt q)
        × IsOrdered (stable_compare cmp) (pull_root cmp.lt q).base
        × ((h : ℕ) → entries (pull_root cmp.lt q) h ≡ update (entries q) (get_root q) none h)
        × ((pull_root cmp.lt q).sequence ≡ q.sequence)
        × ((pull_root cmp.lt q).base.hvec.size_v + 1 ≡ q.base.hvec.size_v)
        × ((pull_root cmp.lt q).base.num_nodes ≡ q.base.num_nodes)
  unfolding pull_root get_root
  pull_root_first q a v o e =
      let (i, m, inside, _, _) = queued_position q.base _ a v.base e in
      let some_node : 0 < q.base.hvec.size_v = omega arith in
      let (least, removed, ordered) =
        pull_root_pulls (stable_compare cmp) al q.base v.base o some_node in
      let root : Heap.get_root_priority q.base ≡ a =
        ground (arith, queued-get_root q.base v.base some_node, e) in
      let least' = rw root at least in
      (
        λ h b ne f.
            Before-of cmp a b (least' h b f) (λ same. ne (v.distinct h _ b a f e (sym same))),
        record {
          base = removed.valid;
          fresh = λ g b f. ground (arith, removed.entries g, v.fresh g b);
          distinct = λ g k b c f f' same.
              ground (arith, removed.entries g, removed.entries k, v.distinct g k b c);
        },
        ordered,
        removed.entries,
        refl,
        removed.size,
        removed.nodes,
      )
