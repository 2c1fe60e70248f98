-- ===== src/Vector/Capacity.antt =====
-- The vector keeps its elements when its capacity changes, and its capacity stays in its bounds.
use dasynq.Prelude.{
  ℕ, ◌+◌, ◌≤◌, ◌<◌, ◌≡◌, ◌⊎◌, inl, inr, ap, Bool, true, false, ◌&&◌, ltb, if◌then◌else◌, arith,
  Bool-cases, copy_loop-inside,
}
use dasynq.Vector.{
  Allocator, Vector, Ends, ok, move, change_capacity, new_capacity, ensure_capacity, emplace_back,
  reserve, shrink_to,
}

module _ {A : Type 0} (al : Allocator A) where
  pub record IsValid (v : Vector A) : Type 0 where
    pub within : v.size_v ≤ v.capacity_v
    pub bounded : v.capacity_v ≤ al.max_size

  -- the two vectors hold the same elements
  pub record SameElements (v w : Vector A) : Type 0 where
    pub size : w.size_v ≡ v.size_v
    pub elements : (i : ℕ) → i < v.size_v → w.array i ≡ v.array i

  pub move-below : (from to : ℕ → A) (count i : ℕ) → i < count → move from to count i ≡ from i
  unfolding move
  move-below from to count i h = copy_loop-inside count 0 from to i (omega arith) (omega arith)

  change_capacity-SameElements : (c : ℕ) (v : Vector A) → SameElements v (change_capacity al c v).0
  unfolding change_capacity
  change_capacity-SameElements c v = record {
    size = ground arith;
    elements = λ i h. ground (arith, move-below v.array al.fresh v.size_v i h);
  }

  ensure_capacity-SameElements :
      (c : ℕ) (exact : Bool) (v : Vector A) → SameElements v (ensure_capacity al c exact v).0
  unfolding ensure_capacity
  ensure_capacity-SameElements c exact v =
      ground (arith, change_capacity-SameElements (new_capacity al c exact v) v)

  -- The test that `ensure_capacity` returns, and the capacity that it leaves.
  ensure_capacity_bounds :
      (c : ℕ) (exact : Bool) (v : Vector A)
      → 4 ≤ al.max_size
      → (exact ≡ false → c ≤ v.capacity_v + 1)
      → (ensure_capacity al c exact v).1 ≡ true
      → c ≤ (ensure_capacity al c exact v).0.capacity_v
  unfolding ensure_capacity change_capacity new_capacity
  ensure_capacity_bounds c exact v m near e = ground arith

  ensure_capacity-IsValid :
      (c : ℕ) (exact : Bool) (v : Vector A)
      → 4 ≤ al.max_size
      → (exact ≡ false → c ≤ v.capacity_v + 1)
      → IsValid v
      → IsValid (ensure_capacity al c exact v).0
  unfolding ensure_capacity change_capacity new_capacity
  ensure_capacity-IsValid c exact v m near h = ground arith

  -- `ensure_capacity` fails only if it needs storage that it may not have or is not given.
  ensure_capacity_fails :
      (c : ℕ) (exact : Bool) (v : Vector A)
      → (ensure_capacity al c exact v).1 ≡ false
      → (v.capacity_v < c) × ((al.max_size < c) ⊎ (al.grants (new_capacity al c exact v) ≡ false))
  unfolding ensure_capacity change_capacity
  ensure_capacity_fails c exact v e = ground arith

  ensure_capacity-fits :
      (c : ℕ) (exact : Bool) (v : Vector A)
      → c ≤ v.capacity_v
      → ensure_capacity al c exact v ≡ (v, true)
  unfolding ensure_capacity
  ensure_capacity-fits c exact v h = ground arith

  -- A vector that grew by one element: what it held is kept.
  pub record Grown (v w : Vector A) : Type 0 where
    pub valid : IsValid w
    pub size : w.size_v ≡ v.size_v + 1
    pub elements : (i : ℕ) → i < v.size_v → w.array i ≡ v.array i

  pub emplace_back-Ends :
      (v : Vector A)
      → 4 ≤ al.max_size
      → IsValid v
      → Ends
          (Grown v)
          ((v.size_v ≡ v.capacity_v)
            × ((al.max_size ≤ v.size_v)
                ⊎ (al.grants (new_capacity al (v.size_v + 1) false v) ≡ false)))
          (emplace_back al v)
  unfolding emplace_back
  emplace_back-Ends v m h =
      let near : false ≡ false → v.size_v + 1 ≤ v.capacity_v + 1 = omega arith in
      let same = ensure_capacity-SameElements (v.size_v + 1) false v in
      elim (Bool-cases (ensure_capacity al (v.size_v + 1) false v).1) [
        | inl e ↦ rw e (record {
          valid = record {
            within =
                omega (arith, same.size, ensure_capacity_bounds (v.size_v + 1) false v m near e);
            bounded = (ensure_capacity-IsValid (v.size_v + 1) false v m near h).bounded;
          };
          size = ap (λ (n : ℕ). n + 1) same.size;
          elements = same.elements;
        })
        | inr e ↦ rw e (ground (arith, ensure_capacity_fails (v.size_v + 1) false v e))
      ]

  -- With room in its capacity a vector gets its new element whatever the allocator does, and the
  -- capacity stays.
  pub emplace_back-fits :
      (v : Vector A)
      → v.size_v < v.capacity_v
      → emplace_back al v ≡ ok (record v { size_v = v.size_v + 1 })
  unfolding emplace_back
  emplace_back-fits v h = rw (ensure_capacity-fits (v.size_v + 1) false v (omega arith))

  pub reserve-Ends :
      (amount : ℕ) (v : Vector A)
      → 4 ≤ al.max_size
      → IsValid v
      → Ends
          (λ w. IsValid w × SameElements v w × (amount ≤ w.capacity_v))
          ((v.capacity_v < amount) × ((al.max_size < amount) ⊎ (al.grants amount ≡ false)))
          (reserve al amount v)
  unfolding reserve new_capacity
  reserve-Ends amount v m h =
      let near : true ≡ false → amount ≤ v.capacity_v + 1 = λ e. cc in
      let same = ensure_capacity-SameElements amount true v in
      elim (Bool-cases (ensure_capacity al amount true v).1) [
        | inl e ↦ rw e (
          ensure_capacity-IsValid amount true v m near h,
          same,
          ensure_capacity_bounds amount true v m near e,
        )
        | inr e ↦ rw e (ensure_capacity_fails amount true v e)
      ]

  -- On a valid vector, if the limit on the size is at least 4: `emplace_back` either returns a valid vector with
  -- one more element and the old elements unchanged, or it throws; it throws only if the vector is at its
  -- capacity, and at the limit too or refused the new storage. `reserve` either returns a valid vector with the
  -- same elements and at least the capacity asked for, or throws; it throws only if the capacity was too small,
  -- and the amount is over the limit or the storage was refused.
  pub grows_or_throws :
      (amount : ℕ) (v : Vector A)
      → 4 ≤ al.max_size
      → IsValid v
      → Ends
          (Grown v)
          ((v.size_v ≡ v.capacity_v)
            × ((al.max_size ≤ v.size_v)
                ⊎ (al.grants (new_capacity al (v.size_v + 1) false v) ≡ false)))
          (emplace_back al v)
        × Ends
            (λ w. IsValid w × SameElements v w × (amount ≤ w.capacity_v))
            ((v.capacity_v < amount) × ((al.max_size < amount) ⊎ (al.grants amount ≡ false)))
            (reserve al amount v)
  grows_or_throws amount v m h = (emplace_back-Ends v m h, reserve-Ends amount v m h)

  -- `shrink_to` an amount that leaves room for the elements keeps the vector valid and its
  -- elements; the new capacity is the amount if it was over it and the storage was granted, and
  -- the old one otherwise.
  pub shrink_to_keeps :
      (amount : ℕ) (v : Vector A)
      → v.size_v ≤ amount
      → IsValid v
      → IsValid (shrink_to al amount v)
        × SameElements v (shrink_to al amount v)
        × ((shrink_to al amount v).capacity_v
            ≡ (if ltb amount v.capacity_v && al.grants amount then amount else v.capacity_v))
  unfolding shrink_to change_capacity
  shrink_to_keeps amount v room h = (
    ground arith,
    record {
      size = ground arith;
      elements = λ i p. ground (arith, move-below v.array al.fresh v.size_v i p);
    },
    ground arith,
  )
