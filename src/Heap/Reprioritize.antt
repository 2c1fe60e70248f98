-- ===== src/Heap/Reprioritize.antt =====
-- `set_priority` of daryheap.h.
use mathlib.Core.Path.{subst}
use dasynq.Prelude.{
  ℕ, ◌+◌, ◌-◌, ◌≤◌, ◌<◌, ◌≡◌, inl, inr, ◌∙◌, refl, some, true, false, ◌==◌, arith, write,
  Bool-cases,
}
use dasynq.Prelude.Compare.{Compare}
use dasynq.Vector.{Allocator}
use dasynq.Heap.{
  select_child, select_loop, bubble_up_loop, Node, Cells, Heap, cells, place, parent_of, bubble_up,
  bubble_down, reprioritize, set_priority, get_root, int_index,
}
use dasynq.Heap.Index.{IsIndexed, view, bubble_up_loop-Keeps, bubble_down_loop-Keeps}
use dasynq.Heap.Order.{IsHeap, LowInv, bubble_down_loop-IsHeap}
use dasynq.Heap.Up.{seen, HighInv, bubble_up_loop-IsHeap}
use dasynq.Heap.Valid.{IsValid, IsOrdered, queued, update}

int_index-small : (i : ℕ) → i < 2_147_483_648 → int_index i ≡ i
unfolding int_index
int_index-small i h = ground arith

module _ {P : Type 0} (i : ℕ) (p : P) (s : Cells P) where
  -- the cells when the node at `i` has its new priority
  abbrev changed : Cells P
  changed = record s { cell = write s.cell i (record (s.cell i) { prio = p }) }

  module _ (size : ℕ) (inside : i < size) (v : IsIndexed size s) where
    changed-IsIndexed : IsIndexed size (place i (s.cell i).hnd p changed)
    changed-IsIndexed = record {
      forward = λ c a. ground (arith, v.forward c a, v.forward i inside);
      backward = λ g c e. ground (arith, v.forward i inside, v.backward g c);
    }

    changed-view :
        (g : ℕ)
        → view (place i (s.cell i).hnd p changed) g ≡ update (view s) (s.cell i).hnd (some p) g
    changed-view g = ground (arith, v.forward i inside, v.backward g i)

  module _ {size : ℕ} where
    alone-IsIndexed : IsIndexed size s → IsIndexed size changed
    alone-IsIndexed v = record {
      forward = λ c a. ground (arith, v.forward c a);
      backward = λ g c e. ground (arith, v.backward g c);
    }

    alone-view :
        i < size
        → IsIndexed size s
        → (g : ℕ) → view changed g ≡ update (view s) (s.cell i).hnd (some p) g
    alone-view inside v g = ground (arith, v.forward i inside, v.backward g i)

  module _ (cmp : Compare P) (size : ℕ) (o : IsHeap cmp size s.cell) where
    changed-HighInv :
        (n : ℕ)
        → n ≤ size
        → i < size
        → cmp.lt (s.cell i).prio p ≡ true
        → HighInv cmp n i (place i (s.cell i).hnd p changed).cell
    changed-HighInv n le inside e = record {
      edges = λ c a b ne. ground (
        arith,
        o c,
        cmp.asymm (s.cell i).prio p e,
        cmp.le_trans (s.cell (parent_of i)).prio (s.cell i).prio p,
      );
      bridged = λ c a b at up. ground (
        arith,
        o c,
        o i,
        cmp.le_trans (s.cell (parent_of i)).prio (s.cell i).prio (s.cell c).prio,
      );
    }

    changed-LowInv :
        i < size
        → cmp.lt (s.cell i).prio p ≡ false
        → LowInv cmp size i (place i (s.cell i).hnd p changed).cell
    changed-LowInv inside e = record {
      inside = inside;
      edges = λ c a b ne. ground (arith, o c, cmp.le_trans p (s.cell i).prio (s.cell c).prio e);
      bridged = λ c a b at up. ground (
        arith,
        o c,
        o i,
        cmp.le_trans (s.cell (parent_of i)).prio (s.cell i).prio (s.cell c).prio,
      );
    }

module _ {P : Type 0} (cmp : Compare P) where
  three_stuck :
      (h : ℕ) (p : P) (s : Cells P)
      → cmp.lt (s.cell 2).prio p ≡ true
      → cmp.lt (s.cell 2).prio (s.cell 1).prio ≡ true
      → let (s', pos') = bubble_up_loop cmp.lt 3 2 0 p s in
        let t = place pos' h p s' in cmp.lt (t.cell 2).prio (t.cell 0).prio ≡ true
  unfolding bubble_up_loop select_child select_loop
  three_stuck h p s last middle = ground arith

module _ {P T : Type 0} (cmp : Compare P) (al : Allocator (Node P)) where
  -- What a change of priority leaves: the queue with the one entry changed.
  pub record Changed (h : ℕ) (p : P) (q r : Heap P T) : Type 0 where
    pub valid : IsValid al r
    pub entries : (g : ℕ) → queued r g ≡ update (queued q) h (some p) g
    pub size : r.hvec.size_v ≡ q.hvec.size_v
    pub nodes : r.num_nodes ≡ q.num_nodes

  module _ (i : ℕ) (p : P) (q : Heap P T) (v : IsValid al q) (inside : i < q.hvec.size_v) where
    Changed-kept :
        (s : Cells P)
        → IsIndexed q.hvec.size_v s
        → ((g : ℕ) → view s g ≡ update (queued q) (q.hvec.array i).hnd (some p) g)
        → Changed
            (q.hvec.array i).hnd
            p
            q
            (record q { hvec = record q.hvec { array = s.cell }; heap_index = s.heap_index })
    Changed-kept s indexed entries = record {
      valid = record {
        room = v.room;
        vector = record { within = v.vector.within; bounded = v.vector.bounded };
        reserved = v.reserved;
        allocated = v.allocated;
        indexed = indexed;
      };
      entries = entries;
      size = refl;
      nodes = refl;
    }

    module _ (o : IsOrdered cmp q) where
      lowered :
          cmp.lt (q.hvec.array i).prio p ≡ false
          → let r = reprioritize cmp.lt i p q in
            Changed (q.hvec.array i).hnd p q r.0
            × IsOrdered cmp r.0
            × (r.1 ≡ (get_root r.0 == (q.hvec.array i).hnd))
      unfolding reprioritize bubble_down get_root
      lowered e =
          let h = (q.hvec.array i).hnd in
          let n = q.hvec.size_v in
          let s = changed i p (cells q) in
          let kept =
            bubble_down_loop-Keeps cmp.lt i n i h p s inside
              (changed-IsIndexed i p (cells q) n inside v.indexed) in
          rw e (
            Changed-kept _ kept.1.indexed
                (λ g. kept.1.same g ∙ changed-view i p (cells q) n inside v.indexed g),
            bubble_down_loop-IsHeap cmp i n i h p s (omega arith)
                (changed-LowInv i p (cells q) cmp n o inside e),
            ground (arith, kept.1.indexed.forward 0),
          )

      raised :
          cmp.lt (q.hvec.array i).prio p ≡ true
          → let r = reprioritize cmp.lt i p q in
            Changed (q.hvec.array i).hnd p q r.0
            × IsHeap cmp (seen (q.hvec.size_v - 1)) r.0.hvec.array
            × (r.1 ≡ false)
      unfolding reprioritize bubble_up
      raised e = elim (Bool-cases (q.hvec.size_v - 1 == 0)) [
        | inl single ↦
            rw (e, single)
              (
                Changed-kept (changed i p (cells q)) (alone-IsIndexed i p (cells q) v.indexed)
                    (alone-view i p (cells q) inside v.indexed),
                λ c a b. absurd (ground arith),
                refl,
              )
        | inr several ↦
            let h = (q.hvec.array i).hnd in
            let n = q.hvec.size_v in
            let rmax = q.hvec.size_v - 1 in
            let s = changed i p (cells q) in
            let kept =
              bubble_up_loop-Keeps cmp (rmax + 1) n rmax i h p s (ground arith) inside
                (inl (omega arith)) (changed-IsIndexed i p (cells q) n inside v.indexed) in
            rw (e, several)
              (
                Changed-kept _ kept.1.indexed
                    (λ g. kept.1.same g ∙ changed-view i p (cells q) n inside v.indexed g),
                bubble_up_loop-IsHeap cmp (rmax + 1) rmax i h p s (ground arith) (omega arith)
                    (changed-HighInv i p (cells q) cmp n o (seen rmax) (ground arith) inside e),
                refl,
              )
      ]

      reprioritize_sets :
          let r = reprioritize cmp.lt i p q in
          Changed (q.hvec.array i).hnd p q r.0
          × (cmp.lt (q.hvec.array i).prio p ≡ false
              → IsOrdered cmp r.0 × (r.1 ≡ (get_root r.0 == (q.hvec.array i).hnd)))
          × (cmp.lt (q.hvec.array i).prio p ≡ true
              → IsHeap cmp (seen (q.hvec.size_v - 1)) r.0.hvec.array × (r.1 ≡ false))
      reprioritize_sets = elim (Bool-cases (cmp.lt (q.hvec.array i).prio p)) [
        | inl e ↦ ((raised e).0, λ n. cc, λ _. ((raised e).1, (raised e).2))
        | inr e ↦ ((lowered e).0, λ _. ((lowered e).1, (lowered e).2), λ n. cc)
      ]

  -- On a valid ordered queue of at most 2^31 nodes, so that the `int` of the code holds the index,
  -- `set_priority` of a queued handle changes the priority of this handle and of no other, and keeps the
  -- queue valid. If the new priority does not come after the old one, the queue stays ordered, and the
  -- result tells whether the handle is at the root, also if it was there before. If it does, the result
  -- is false, and the nodes that bubble_up looks at are ordered: all but the last node, and the last if
  -- it is a first child.
  pub set_priority_sets :
      (h i : ℕ) (p : P) (q : Heap P T)
      → IsValid al q
      → IsOrdered cmp q
      → q.hvec.size_v ≤ 2_147_483_648
      → q.heap_index h ≡ some i
      → let r = set_priority cmp.lt h p q in
        Changed h p q r.0
        × (cmp.lt (q.hvec.array i).prio p ≡ false → IsOrdered cmp r.0 × (r.1 ≡ (get_root r.0 == h)))
        × (cmp.lt (q.hvec.array i).prio p ≡ true
            → IsHeap cmp (seen (q.hvec.size_v - 1)) r.0.hvec.array × (r.1 ≡ false))
  unfolding set_priority
  set_priority_sets h i p q v o few e =
      let (inside, at) = v.indexed.backward h i e in
      let same = int_index-small i (omega (arith, inside)) in
      rw (e, set_priority, same)
        (subst
          (λ x.
            Changed x p q (reprioritize cmp.lt i p q).0
            × (cmp.lt (q.hvec.array i).prio p ≡ false
                → IsOrdered cmp (reprioritize cmp.lt i p q).0
                  × ((reprioritize cmp.lt i p q).1 ≡ (get_root (reprioritize cmp.lt i p q).0 == x)))
            × (cmp.lt (q.hvec.array i).prio p ≡ true
                → IsHeap cmp (seen (q.hvec.size_v - 1)) (reprioritize cmp.lt i p q).0.hvec.array
                  × ((reprioritize cmp.lt i p q).1 ≡ false)))
          at (reprioritize_sets i p q v inside o))

  -- Of a valid ordered queue with three nodes, whose last node comes before the middle one,
  -- `set_priority` of the root to a priority that the last node comes before leaves a queue that is
  -- not ordered: bubble_up does not look at the last node.
  pub set_priority_unordered :
      (h : ℕ) (p : P) (q : Heap P T)
      → IsValid al q
      → IsOrdered cmp q
      → q.heap_index h ≡ some 0
      → q.hvec.size_v ≡ 3
      → cmp.lt (q.hvec.array 2).prio p ≡ true
      → cmp.lt (q.hvec.array 2).prio (q.hvec.array 1).prio ≡ true
      → ¬ IsOrdered cmp (set_priority cmp.lt h p q).0
  unfolding set_priority reprioritize bubble_up
  set_priority_unordered h p q v o e three last middle broken =
      let below = cmp.le_trans p (q.hvec.array 0).prio (q.hvec.array 2).prio in
      let raises : cmp.lt (q.hvec.array 0).prio p ≡ true = ground (arith, below, o 2) in
      let node = (q.hvec.array 0).hnd in
      let stuck = three_stuck cmp node p (changed 0 p (cells q)) last middle in
      let first : int_index 0 ≡ 0 = int_index-small 0 (omega arith) in
      let edge =
        (rw (e, set_priority, first, raises, three) at broken) 2 (omega arith) (omega arith) in
      cc
