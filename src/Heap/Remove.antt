-- ===== src/Heap/Remove.antt =====
-- `remove` and `pull_root` of daryheap.h.
use mathlib.Core.Path.{subst}
use dasynq.Prelude.{
  Option-cases, ℕ, zero, ltb, suc, ◌+◌, ◌-◌, ◌<◌, ◌≡◌, ◌↔◌, ◌⊎◌, inl, inr, ◌∙◌, refl, none, some,
  Bool, true, false, leb, ◌==◌, arith, write, Bool-cases, ◌/◌,
}
use dasynq.Prelude.Compare.{Compare}
use dasynq.Vector
use dasynq.Vector.{Allocator, Vector}
use dasynq.Heap.{
  Node, Cells, Heap, cells, place, parent_of, bubble_up, bubble_up_loop, select_child, remove_h,
  remove, pull_root, get_root, get_root_priority,
}
use dasynq.Heap.Index.{IsIndexed, view, bubble_up_loop-Keeps}
use dasynq.Heap.Order.{IsHeap, root_least}
use dasynq.Heap.Up.{seen, HighInv, bubble_up_loop-IsHeap, select_child-IsLeastChild}
use dasynq.Heap.Valid.{IsValid, IsOrdered, queued, update}

not_true : {b : Bool} → ¬ (b ≡ true) → b ≡ false
not_true {b} h = ground arith

module _ {P : Type 0} (rmax i : ℕ) (s : Cells P) where
  -- the cells when the last node is about to take the place `i`, which its handle has left
  abbrev vacated : Cells P
  vacated = record s { heap_index = write s.heap_index (s.cell i).hnd none }

  abbrev last : Node P
  last = s.cell rmax

  module _ (inside : i < rmax) (v : IsIndexed (rmax + 1) s) where
    vacated-IsIndexed : IsIndexed rmax (place i last.hnd last.prio vacated)
    vacated-IsIndexed = record {
      forward = λ c a. ground (arith, v.forward c, v.forward i, v.forward rmax);
      backward = λ g c e. ground (arith, v.forward i, v.forward rmax, v.backward g c);
    }

    vacated-view :
        (g : ℕ)
        → view (place i last.hnd last.prio vacated) g ≡ update (view s) (s.cell i).hnd none g
    vacated-view g = ground (arith, v.forward i, v.forward rmax, v.backward g i)

  vacated-HighInv :
      (cmp : Compare P)
      → i < rmax
      → IsHeap cmp (rmax + 1) s.cell
      → (0 < i → cmp.lt last.prio (s.cell (parent_of i)).prio ≡ false)
      → HighInv cmp (seen rmax) i (place i last.hnd last.prio vacated).cell
  vacated-HighInv cmp inside o fits = record {
    edges = λ c a b ne. ground (arith, o c, fits);
    bridged = λ c a b e up.
        ground (
          arith,
          o c,
          o i,
          cmp.le_trans (s.cell (parent_of i)).prio (s.cell i).prio (s.cell c).prio,
        );
  }

  -- If the last node comes before the parent of the place, the loop of bubble_up stops at once.
  vacated_stops :
      (cmp : Compare P) (k : ℕ)
      → 0 < i
      → i < rmax
      → IsHeap cmp (rmax + 1) s.cell
      → cmp.lt last.prio (s.cell (parent_of i)).prio ≡ true
      → bubble_up_loop cmp.lt k rmax i last.prio vacated ≡ (vacated, i)
  unfolding bubble_up_loop
  vacated_stops cmp zero up inside o e = refl
  vacated_stops cmp (suc k) up inside o e = elim (Bool-cases (leb i ((rmax - 1) / 4))) [
    | inr out ↦ rw out
    | inl inner ↦
        let child = select_child cmp.lt i rmax s.cell in
        let m = select_child-IsLeastChild cmp i rmax s.cell (omega arith) (ground arith) in
        let above : cmp.lt (s.cell child).prio (s.cell (parent_of i)).prio ≡ false = ground (
          arith,
          o child,
          o i,
          m.inside,
          m.later,
          m.parent,
          cmp.le_trans (s.cell (parent_of i)).prio (s.cell i).prio (s.cell child).prio,
        ) in
        let settled : cmp.lt (s.cell child).prio last.prio ≡ false =
          cmp.le_trans last.prio (s.cell (parent_of i)).prio (s.cell child).prio
            (cmp.asymm last.prio _ e) above in
        rw (inner, settled)
  ]

module _ {P T : Type 0} (cmp : Compare P) (al : Allocator (Node P)) where
  -- What a removal leaves: the queue without the handle.
  pub record Removed (h : ℕ) (q r : Heap P T) : Type 0 where
    pub valid : IsValid al r
    pub entries : (g : ℕ) → queued r g ≡ update (queued q) h none g
    pub size : r.hvec.size_v + 1 ≡ q.hvec.size_v
    pub nodes : r.num_nodes ≡ q.num_nodes

  -- The node that takes the place `i` does not come before the parent of `i`.
  abbrev pub Fits : ℕ → Heap P T → Type 0
  Fits i q =
      (i ≡ 0)
      ⊎ (i + 1 ≡ q.hvec.size_v)
      ⊎ (cmp.lt (q.hvec.array (q.hvec.size_v - 1)).prio (q.hvec.array (parent_of i)).prio ≡ false)

  module _ (i : ℕ) (q : Heap P T) (v : IsValid al q) (inside : i < q.hvec.size_v) where
    remove_last : i + 1 ≡ q.hvec.size_v → Removed (q.hvec.array i).hnd q (remove_h cmp.lt i q)
    unfolding remove_h Vector.pop_back
    remove_last e =
        let at_last : (q.hvec.size_v == i + 1) ≡ true = ground arith in
        rw at_last (record {
          valid = record {
            room = v.room;
            vector = record { within = omega (arith, v.vector.within); bounded = v.vector.bounded };
            reserved = v.reserved;
            allocated = omega (arith, v.allocated);
            indexed = record {
              forward = λ c a. ground (arith, v.indexed.forward c, v.indexed.forward i);
              backward = λ g c a. ground (arith, v.indexed.backward g c);
            };
          };
          entries = λ g. ground (arith, v.indexed.forward i);
          size = omega arith;
          nodes = refl;
        })

    remove_inner : i + 1 < q.hvec.size_v → Removed (q.hvec.array i).hnd q (remove_h cmp.lt i q)
    unfolding remove_h bubble_up Vector.pop_back Vector.back
    remove_inner e =
        let rmax = q.hvec.size_v - 1 in
        let node = q.hvec.array rmax in
        let s = vacated rmax i (cells q) in
        let loop = bubble_up_loop cmp.lt (rmax + 1) rmax i node.prio s in
        let inner : (q.hvec.size_v == i + 1) ≡ false = ground arith in
        let several : (q.hvec.size_v - 1 == 0) ≡ false = ground arith in
        let whole : q.hvec.size_v ≡ q.hvec.size_v - 1 + 1 = omega arith in
        let indexed : IsIndexed (q.hvec.size_v - 1 + 1) (cells q) = rw (← whole) v.indexed in
        let kept =
          bubble_up_loop-Keeps cmp (rmax + 1) rmax rmax i node.hnd node.prio s (omega arith)
            (omega arith) (inr (refl, ground arith))
            (vacated-IsIndexed rmax i (cells q) (omega arith) indexed) in
        rw (inner, several)
          (record {
            valid = record {
              room = v.room;
              vector = record {
                within = omega (arith, v.vector.within);
                bounded = v.vector.bounded;
              };
              reserved = v.reserved;
              allocated = omega (arith, v.allocated);
              indexed = kept.1.indexed;
            };
            entries = λ g. kept.1.same g ∙ vacated-view rmax i (cells q) (omega arith) indexed g;
            size = omega arith;
            nodes = refl;
          })

    remove_h_removes : Removed (q.hvec.array i).hnd q (remove_h cmp.lt i q)
    remove_h_removes = elim (Bool-cases (q.hvec.size_v == i + 1)) [
      | inl e ↦ remove_last (ground arith)
      | inr e ↦ remove_inner (ground arith)
    ]

    remove_h-IsOrdered : IsOrdered cmp q → Fits i q → IsOrdered cmp (remove_h cmp.lt i q)
    unfolding remove_h bubble_up Vector.pop_back Vector.back
    remove_h-IsOrdered o fits = elim (Bool-cases (q.hvec.size_v == i + 1)) [
      | inl e ↦ rw e (λ c a b. o c a (omega arith))
      | inr e ↦
          let rmax = q.hvec.size_v - 1 in
          let node = q.hvec.array rmax in
          let s = vacated rmax i (cells q) in
          let several : (q.hvec.size_v - 1 == 0) ≡ false = ground arith in
          let whole : q.hvec.size_v ≡ q.hvec.size_v - 1 + 1 = omega arith in
          let ordered : IsHeap cmp (q.hvec.size_v - 1 + 1) q.hvec.array = rw (← whole) o in
          let start =
            vacated-HighInv rmax i (cells q) cmp (ground arith) ordered
              (λ up. ground (arith, fits)) in
          rw (e, several)
            (λ c a b.
              bubble_up_loop-IsHeap cmp (rmax + 1) rmax i node.hnd node.prio s (ground arith)
                (omega arith) start c a (ground arith))
    ]

    remove_h-unordered : IsOrdered cmp q → IsOrdered cmp (remove_h cmp.lt i q) → Fits i q
    unfolding remove_h bubble_up Vector.pop_back Vector.back
    remove_h-unordered o r = elim (Bool-cases (ltb 0 i)) [
      | inr e ↦ inl (ground arith)
      | inl up ↦ inr (elim (Bool-cases (q.hvec.size_v == i + 1)) [
        | inl e ↦ inl (ground arith)
        | inr e ↦ inr (not_true λ before. broken (ground arith) e before)
      ])
    ]
      where
        broken :
            0 < i
            → (q.hvec.size_v == i + 1) ≡ false
            → cmp.lt (q.hvec.array (q.hvec.size_v - 1)).prio (q.hvec.array (parent_of i)).prio
              ≡ true
            → ⊥
        broken up e before =
            let rmax = q.hvec.size_v - 1 in
            let several : (q.hvec.size_v - 1 == 0) ≡ false = ground arith in
            let whole : q.hvec.size_v ≡ q.hvec.size_v - 1 + 1 = omega arith in
            let ordered : IsHeap cmp (q.hvec.size_v - 1 + 1) q.hvec.array = rw (← whole) o in
            let stop =
              vacated_stops rmax i (cells q) cmp (rmax + 1) up (ground arith) ordered before in
            let r' : IsHeap cmp rmax (write q.hvec.array i (q.hvec.array rmax)) =
              rw (e, several, stop) at r in
            let edge = r' i up (ground arith) in ground (arith, edge, before)

  pub remove_removes :
      (h i : ℕ) (q : Heap P T)
      → IsValid al q
      → q.heap_index h ≡ some i
      → Removed h q (remove cmp.lt h q)
  unfolding remove
  remove_removes h i q v e =
      let (inside, at) = v.indexed.backward h i e in
      rw (e, remove)
        (subst (λ x. Removed x q (remove_h cmp.lt i q)) at (remove_h_removes i q v inside))

  -- On a valid ordered queue, `remove` of the handle queued at position `i` takes this handle out and no other:
  -- each other handle stays queued under its priority, the vector has one node less, the number of allocated
  -- nodes stays, and the queue stays valid. It leaves the queue ordered exactly when `i` is the root or the
  -- last position, or the last node does not come before the parent of position `i`.
  pub remove-IsOrdered_iff :
      (h i : ℕ) (q : Heap P T)
      → IsValid al q
      → IsOrdered cmp q
      → q.heap_index h ≡ some i
      → Removed h q (remove cmp.lt h q) × (IsOrdered cmp (remove cmp.lt h q) ↔ Fits i q)
  unfolding remove
  remove-IsOrdered_iff h i q v o e =
      let inside = (v.indexed.backward h i e).0 in
      let removed = remove_removes h i q v e in
      (
        removed,
        rw (e, remove) (remove_h-unordered i q v inside o, remove_h-IsOrdered i q v inside o),
      )

  -- On a valid ordered queue that is not empty, no queued priority comes before the one at the root,
  -- and `pull_root` takes the handle at the root out, and no other, and leaves the queue valid and
  -- ordered.
  pub pull_root_pulls :
      (q : Heap P T)
      → IsValid al q
      → IsOrdered cmp q
      → 0 < q.hvec.size_v
      → ((g : ℕ) (p : P) → queued q g ≡ some p → cmp.lt p (get_root_priority q) ≡ false)
        × Removed (get_root q) q (pull_root cmp.lt q)
        × IsOrdered cmp (pull_root cmp.lt q)
  unfolding pull_root get_root get_root_priority
  pull_root_pulls q v o some_node = (
    λ g p e. elim (Option-cases (q.heap_index g)) [
      | inl n ↦ ground arith
      | inr (j, m) ↦
          ground (arith, m, root_least cmp q.hvec.size_v q.hvec.array o j, v.indexed.backward g j)
    ],
    remove_h_removes 0 q v some_node,
    remove_h-IsOrdered 0 q v some_node o (inl refl),
  )
