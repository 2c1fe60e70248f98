-- ===== src/Heap/Up.antt =====
-- The loop of bubble_up: a node that may come after its children moves towards the leaves.
use dasynq.Prelude.{
  ℕ, zero, suc, ◌+◌, ◌-◌, ◌*◌, ◌/◌, ◌%◌, min, ◌≤◌, ◌<◌, ◌≡◌, ◌≢◌, ◌⊎◌, inl, inr, refl, true, false,
  leb, ◌==◌, if◌then◌else◌, arith, Bool-cases,
}
use dasynq.Prelude.Compare.{Compare}
use dasynq.Heap.{
  Node, Cells, shift, place, parent_of, fan_out, bubble_up_loop, select_loop, select_child,
}
use dasynq.Heap.Order.{IsHeap, irrefl}

-- The cells that bubble_up looks at: all but the last, and the last if it is a first child.
abbrev pub seen : ℕ → ℕ
seen rmax = if rmax % fan_out == 1 then rmax + 1 else rmax

module _ {P : Type 0} (cmp : Compare P) where
  -- the least of the first node and of those at `i` and after
  select_loop_least :
      (n i sel : ℕ) (cell : ℕ → Node P)
      → let r = select_loop cmp.lt n i sel cell in
        ((r ≡ sel) ⊎ ((i ≤ r) × (r < i + n)))
        × (cmp.lt (cell sel).prio (cell r).prio ≡ false)
        × ((c : ℕ) → i ≤ c → c < i + n → cmp.lt (cell c).prio (cell r).prio ≡ false)
  unfolding select_loop
  select_loop_least zero i sel cell =
      (inl refl, irrefl cmp (cell sel).prio, λ c a b. absurd (omega arith))
  select_loop_least (suc n) i sel cell = elim (Bool-cases (cmp.lt (cell i).prio (cell sel).prio)) [
    | inl e ↦
        let ih = select_loop_least n (i + 1) i cell in
        rw e (
          ground (arith, ih),
          cmp.le_trans _ (cell i).prio _ ih.1 (cmp.asymm _ _ e),
          λ c a b. ground (arith, ih.1, ih.2 c),
        )
    | inr e ↦
        let ih = select_loop_least n (i + 1) sel cell in
        rw e (
          ground (arith, ih),
          ih.1,
          λ c a b. ground (arith, cmp.le_trans _ (cell sel).prio (cell i).prio ih.1, ih.2 c),
        )
  ]

  pub record IsLeastChild (rmax pos child : ℕ) (cell : ℕ → Node P) : Type 0 where
    pub inside : child < seen rmax
    pub parent : parent_of child ≡ pos
    pub later : pos < child
    pub least :
        (c : ℕ)
        → 0 < c
        → c < seen rmax
        → parent_of c ≡ pos
        → cmp.lt (cell c).prio (cell child).prio ≡ false

  pub select_child-IsLeastChild :
      (pos rmax : ℕ) (cell : ℕ → Node P)
      → 0 < rmax
      → pos ≤ (rmax - 1) / fan_out
      → IsLeastChild rmax pos (select_child cmp.lt pos rmax cell) cell
  unfolding select_child
  select_child-IsLeastChild pos rmax cell some_child h =
      let lchild : ℕ = pos * 4 + 1 in
      let rchild : ℕ = min (lchild + 4) rmax in
      let (at, first, rest) = select_loop_least (rchild - (lchild + 1)) (lchild + 1) lchild cell in
      record {
        inside = ground (arith, at);
        parent = ground (arith, at);
        later = ground (arith, at);
        least = λ c a b e. ground (arith, first, rest c);
      }

  -- the node at `pos` may come after its children
  pub record HighInv (size pos : ℕ) (cell : ℕ → Node P) : Type 0 where
    pub edges :
        (c : ℕ)
        → 0 < c
        → c < size
        → parent_of c ≢ pos
        → cmp.lt (cell c).prio (cell (parent_of c)).prio ≡ false
    pub bridged :
        (c : ℕ)
        → 0 < c
        → c < size
        → parent_of c ≡ pos
        → 0 < pos
        → cmp.lt (cell c).prio (cell (parent_of pos)).prio ≡ false

  shift-HighInv :
      (size pos child h : ℕ) (p : P) (s : Cells P)
      → IsLeastChild size pos child s.cell
      → cmp.lt (s.cell child).prio p ≡ true
      → HighInv (seen size) pos (place pos h p s).cell
      → HighInv (seen size) child (place child h p (shift pos child s)).cell
  shift-HighInv size pos child h p s m e v = record {
    edges = λ c a b ne. ground (
      arith,
      m.inside,
      m.parent,
      m.later,
      m.least c a b,
      v.edges c a b,
      v.bridged child,
      cmp.asymm (s.cell child).prio p e,
    );
    bridged = λ c a b at up. ground (arith, m.inside, m.parent, m.later, v.edges c a b);
  }

  -- With a fuel above the distance to the last cell, the loop of bubble_up puts the cells that it
  -- looks at in order.
  pub bubble_up_loop-IsHeap :
      (k rmax pos h : ℕ) (p : P) (s : Cells P)
      → 0 < rmax
      → rmax < pos + k
      → HighInv (seen rmax) pos (place pos h p s).cell
      → let (s', pos') = bubble_up_loop cmp.lt k rmax pos p s in
        IsHeap cmp (seen rmax) (place pos' h p s').cell
  unfolding bubble_up_loop
  bubble_up_loop-IsHeap zero rmax pos h p s some_child f v = λ c a b. v.edges c a b (ground arith)
  bubble_up_loop-IsHeap (suc k) rmax pos h p s some_child f v =
      elim (Bool-cases (leb pos ((rmax - 1) / 4))) [
        | inr e ↦ rw e (λ c a b. v.edges c a b (ground arith))
        | inl inner ↦
            let child = select_child cmp.lt pos rmax s.cell in
            let m = select_child-IsLeastChild pos rmax s.cell some_child (ground arith) in
            rw inner (elim (Bool-cases (cmp.lt (s.cell child).prio p)) [
              | inl e ↦ rw e (
                  bubble_up_loop-IsHeap k rmax child h p _ some_child (omega (arith, m.later))
                    (shift-HighInv rmax pos child h p s m e v))
              | inr e ↦ rw e (λ c a b. ground (
                arith,
                v.edges c a b,
                m.least c a b,
                m.later,
                cmp.le_trans p (s.cell child).prio (s.cell c).prio e,
              ))
            ])
      ]
