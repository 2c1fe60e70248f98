-- ===== src/Heap/Index.antt =====
-- The handles of a heap point at their nodes, and the nodes back at their handles.
use dasynq.Prelude.Compare.{Compare}
use dasynq.Heap.Order.{irrefl}
use dasynq.Heap.Up.{select_child-IsLeastChild}
use dasynq.Prelude.{
  leb, ◌⊎◌, ◌-◌, ◌/◌, zero, suc, ltb, Bool-cases, inl, inr, refl, Bool, ◌∙◌, ℕ, ◌<◌, ◌≡◌, ◌≢◌,
  Option, none, some, arith,
}
use dasynq.Heap.{bubble_up_loop, select_child, bubble_down_loop, parent_of, Cells, shift, place}

module _ {P : Type 0} where
  pub record IsIndexed (size : ℕ) (s : Cells P) : Type 0 where
    pub forward : (i : ℕ) → i < size → s.heap_index (s.cell i).hnd ≡ some i
    pub backward : (h i : ℕ) → s.heap_index h ≡ some i → (i < size) × ((s.cell i).hnd ≡ h)

  -- The priority under which a handle is queued.
  abbrev pub view : Cells P → ℕ → Option P
  view s h = elim (s.heap_index h) [ none ↦ none | some i ↦ some (s.cell i).prio ]

  -- The handles stay indexed, and stay queued under the same priorities.
  pub record Keeps (size : ℕ) (before after : Cells P) : Type 0 where
    pub indexed : IsIndexed size after
    pub same : (g : ℕ) → view after g ≡ view before g

  pub Keeps-refl : {size : ℕ} {s : Cells P} → IsIndexed size s → Keeps size s s
  Keeps-refl v = record { indexed = v; same = λ g. refl }

  Keeps-trans : {size : ℕ} {s t u : Cells P} → Keeps size s t → Keeps size t u → Keeps size s u
  Keeps-trans k l = record { indexed = l.indexed; same = λ g. l.same g ∙ k.same g }

  shift-place-IsIndexed :
      (size pos from h : ℕ) (p : P) (s : Cells P)
      → pos < size
      → from < size
      → pos ≢ from
      → IsIndexed size (place pos h p s)
      → IsIndexed size (place from h p (shift pos from s))
  shift-place-IsIndexed size pos from h p s a b ne v = record {
    forward = λ i hi. ground (arith, v.forward i hi, v.forward from b, v.forward pos a);
    backward = λ g i e. ground (
      arith,
      v.backward g i,
      v.forward from b,
      v.forward pos a,
      v.backward g from,
      v.backward g pos,
    );
  }

  shift-place-view :
      (size pos from h : ℕ) (p : P) (s : Cells P)
      → pos < size
      → from < size
      → pos ≢ from
      → IsIndexed size (place pos h p s)
      → (g : ℕ) → view (place from h p (shift pos from s)) g ≡ view (place pos h p s) g
  shift-place-view size pos from h p s a b ne v g =
      ground (arith, v.forward from b, v.forward pos a, v.backward g from, v.backward g pos)

  shift-place-Keeps :
      (size pos from h : ℕ) (p : P) (s : Cells P)
      → pos < size
      → from < size
      → pos ≢ from
      → IsIndexed size (place pos h p s)
      → Keeps size (place pos h p s) (place from h p (shift pos from s))
  shift-place-Keeps size pos from h p s a b ne v = record {
    indexed = shift-place-IsIndexed size pos from h p s a b ne v;
    same = shift-place-view size pos from h p s a b ne v;
  }

module _ {P : Type 0} (lt : P → P → Bool) where
  pub bubble_down_loop-Keeps :
      (k size pos h : ℕ) (p : P) (s : Cells P)
      → pos < size
      → IsIndexed size (place pos h p s)
      → let (s', pos') = bubble_down_loop lt k pos p s in
        (pos' < size) × Keeps size (place pos h p s) (place pos' h p s')
  unfolding bubble_down_loop
  bubble_down_loop-Keeps zero size pos h p s a v = (a, Keeps-refl v)
  bubble_down_loop-Keeps (suc k) size pos h p s a v = elim (Bool-cases (ltb 0 pos)) [
    | inr root ↦ rw root (a, Keeps-refl v)
    | inl up ↦ rw up (elim (Bool-cases (lt p (s.cell (parent_of pos)).prio)) [
      | inr e ↦ rw e (a, Keeps-refl v)
      | inl e ↦
          let b : parent_of pos < size = ground arith in
          let step = shift-place-Keeps size pos (parent_of pos) h p s a b (ground arith) v in
          let rest = bubble_down_loop-Keeps k size (parent_of pos) h p _ b step.indexed in
          rw e (rest.0, Keeps-trans step rest.1)
    ])
  ]

module _ {P : Type 0} (cmp : Compare P) where
  -- The cell `rmax` is one of the `size` cells, or a copy of the node that moves.
  abbrev pub IsLast : ℕ → ℕ → P → Cells P → Type 0
  IsLast size rmax p s = (rmax < size) ⊎ ((rmax ≡ size) × ((s.cell rmax).prio ≡ p))

  pub bubble_up_loop-Keeps :
      (k size rmax pos h : ℕ) (p : P) (s : Cells P)
      → 0 < rmax
      → pos < size
      → IsLast size rmax p s
      → IsIndexed size (place pos h p s)
      → let (s', pos') = bubble_up_loop cmp.lt k rmax pos p s in
        (pos' < size) × Keeps size (place pos h p s) (place pos' h p s')
  unfolding bubble_up_loop
  bubble_up_loop-Keeps zero size rmax pos h p s some_child a last v = (a, Keeps-refl v)
  bubble_up_loop-Keeps (suc k) size rmax pos h p s some_child a last v =
      elim (Bool-cases (leb pos ((rmax - 1) / 4))) [
        | inr e ↦ rw e (a, Keeps-refl v)
        | inl inner ↦
            let child = select_child cmp.lt pos rmax s.cell in
            let m = select_child-IsLeastChild cmp pos rmax s.cell some_child (ground arith) in
            rw inner (elim (Bool-cases (cmp.lt (s.cell child).prio p)) [
              | inr e ↦ rw e (a, Keeps-refl v)
              | inl e ↦
                  let b : child < size = ground (arith, m.inside, irrefl cmp p) in
                  let ne : pos ≢ child = omega (arith, m.later) in
                  let step = shift-place-Keeps size pos child h p s a b ne v in
                  let last' : IsLast size rmax p (shift pos child s) = ground arith in
                  let rest =
                    bubble_up_loop-Keeps k size rmax child h p _ some_child b last' step.indexed in
                  rw e (rest.0, Keeps-trans step rest.1)
            ])
      ]
