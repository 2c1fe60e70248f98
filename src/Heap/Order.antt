-- ===== src/Heap/Order.antt =====
-- The order of the heap, and what the two loops make of a heap with one node out of place. The loops
-- move the other nodes and write the node itself at the end: here it is seen as placed all along.
use dasynq.Prelude.{ℕ, zero, suc, ◌≤◌, ◌<◌, ◌≡◌, ◌≢◌, true, false, ltb, arith, Bool-cases, inl, inr}
use dasynq.Prelude.Compare.{Compare}
use dasynq.Heap.{Node, Cells, shift, place, parent_of, bubble_down_loop}

module _ {P : Type 0} (cmp : Compare P) where
  -- no node comes before its parent
  abbrev pub IsHeap : ℕ → (ℕ → Node P) → Type 0
  IsHeap size cell =
      (c : ℕ) → 0 < c → c < size → cmp.lt (cell c).prio (cell (parent_of c)).prio ≡ false

  -- the node at `pos` may come before its parent
  pub record LowInv (size pos : ℕ) (cell : ℕ → Node P) : Type 0 where
    pub inside : pos < size
    pub edges :
        (c : ℕ)
        → 0 < c
        → c < size
        → c ≢ pos
        → cmp.lt (cell c).prio (cell (parent_of c)).prio ≡ false
    pub bridged :
        (c : ℕ)
        → 0 < c
        → c < size
        → parent_of c ≡ pos
        → 0 < pos
        → cmp.lt (cell c).prio (cell (parent_of pos)).prio ≡ false

  shift-LowInv :
      (size pos h : ℕ) (p : P) (s : Cells P)
      → 0 < pos
      → cmp.lt p (s.cell (parent_of pos)).prio ≡ true
      → LowInv size pos (place pos h p s).cell
      → LowInv size (parent_of pos) (place (parent_of pos) h p (shift pos (parent_of pos) s)).cell
  shift-LowInv size pos h p s above e v = record {
    inside = omega (arith, v.inside);
    edges = λ c a b ne. ground (
      arith,
      v.edges c a b,
      v.bridged c a b,
      cmp.asymm p (s.cell (parent_of pos)).prio e,
      cmp.le_trans p (s.cell (parent_of pos)).prio (s.cell c).prio,
    );
    bridged = λ c a b at up. ground (
      arith,
      v.edges c a b,
      v.edges (parent_of pos),
      cmp.le_trans (s.cell (parent_of (parent_of pos))).prio (s.cell (parent_of pos)).prio
          (s.cell c).prio,
    );
  }

  -- With a fuel of at least the position, the loop of bubble_down leaves a heap.
  pub bubble_down_loop-IsHeap :
      (k size pos h : ℕ) (p : P) (s : Cells P)
      → pos ≤ k
      → LowInv size pos (place pos h p s).cell
      → let (s', pos') = bubble_down_loop cmp.lt k pos p s in IsHeap size (place pos' h p s').cell
  unfolding bubble_down_loop
  bubble_down_loop-IsHeap zero size pos h p s f v = λ c a b. v.edges c a b (omega arith)
  bubble_down_loop-IsHeap (suc k) size pos h p s f v = elim (Bool-cases (ltb 0 pos)) [
    | inr root ↦ rw root (λ c a b. v.edges c a b (ground arith))
    | inl up ↦ rw up (elim (Bool-cases (cmp.lt p (s.cell (parent_of pos)).prio)) [
      | inl e ↦ rw e (
          bubble_down_loop-IsHeap k size (parent_of pos) h p _ (ground arith)
            (shift-LowInv size pos h p s (ground arith) e v))
      | inr e ↦ rw e (λ c a b. ground (arith, v.edges c a b))
    ])
  ]

  pub irrefl : (a : P) → cmp.lt a a ≡ false
  irrefl a = ground (arith, cmp.asymm a a)

  root_least_below :
      (k size : ℕ) (cell : ℕ → Node P)
      → IsHeap size cell
      → (i : ℕ) → i ≤ k
      → i < size
      → cmp.lt (cell i).prio (cell 0).prio ≡ false
  root_least_below zero size cell o i f a = ground (arith, irrefl (cell 0).prio)
  root_least_below (suc k) size cell o i f a = elim (Bool-cases (ltb 0 i)) [
    | inr e ↦ let at : i ≡ 0 = ground arith in rw at (irrefl (cell 0).prio)
    | inl e ↦
        cmp.le_trans (cell 0).prio (cell (parent_of i)).prio (cell i).prio
          (root_least_below k size cell o (parent_of i) (ground arith) (omega arith))
          (o i (ground arith) a)
  ]

  -- no node comes before the root
  pub root_least :
      (size : ℕ) (cell : ℕ → Node P)
      → IsHeap size cell
      → (i : ℕ) → i < size
      → cmp.lt (cell i).prio (cell 0).prio ≡ false
  root_least size cell o i a = root_least_below i size cell o i (omega arith) a
