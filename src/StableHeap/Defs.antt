-- ===== src/StableHeap/Defs.antt =====
-- The classes stable_prio, compare_stable_prio and stable_heap.
use dasynq.Prelude.{ℕ, ◌+◌, ◌%◌, ◌^◌, Bool, true, false, ltb, if◌then◌else◌}
use dasynq.Vector.{Allocator, Throws, ok, bad_alloc}
use dasynq.Heap
use dasynq.Heap.{Heap, Node}

pub record StablePrio (P : Type 0) : Type 0 where
  pub p : P
  pub order : ℕ

-- compare_stable_prio::operator()
unfoldable pub compare_stable_prio :
    {P : Type 0} → (P → P → Bool) → StablePrio P → StablePrio P → Bool
compare_stable_prio lt a b =
    if lt a.p b.p then true else if lt b.p a.p then false else ltb a.order b.order

abbrev pub u64_mod : ℕ
u64_mod = 2 ^ 64

-- The private base, and the counter.
pub record StableHeap (P T : Type 0) : Type 0 where
  pub base : Heap (StablePrio P) T
  pub sequence : ℕ

abbrev pub stamp : {P : Type 0} → P → ℕ → StablePrio P
stamp pval sequence = record { p = pval; order = sequence }

module _ {P T : Type 0} where
  -- a call that the base answers with a new base, or an exception
  abbrev pub rebase : StableHeap P T → Throws (Heap (StablePrio P) T) → Throws (StableHeap P T)
  rebase q (ok base) = ok (record q { base = base })
  rebase q bad_alloc = bad_alloc

  abbrev pub rebase_flag :
      StableHeap P T → Throws (Heap (StablePrio P) T × Bool) → Throws (StableHeap P T × Bool)
  rebase_flag q (ok (base, flag)) = ok (record q { base = base }, flag)
  rebase_flag q bad_alloc = bad_alloc

  unfoldable pub allocate :
      Allocator (Node (StablePrio P)) → ℕ → T → StableHeap P T → Throws (StableHeap P T)
  allocate al hnd u q = rebase q (Heap.allocate al hnd u q.base)

  unfoldable pub deallocate : Allocator (Node (StablePrio P)) → StableHeap P T → StableHeap P T
  deallocate al q = record q { base = Heap.deallocate al q.base }

  unfoldable pub is_queued : StableHeap P T → ℕ → Bool
  is_queued q hnd = Heap.is_queued q.base hnd

  unfoldable pub get_root : StableHeap P T → ℕ
  get_root q = Heap.get_root q.base

  unfoldable pub empty : StableHeap P T → Bool
  empty q = Heap.empty q.base

  unfoldable pub size : StableHeap P T → ℕ
  size q = Heap.size q.base

  module _ (lt : P → P → Bool) where
    unfoldable pub insert :
        Allocator (Node (StablePrio P)) → ℕ → P → StableHeap P T → Throws (StableHeap P T × Bool)
    insert al hnd pval q =
        let sp = stamp pval q.sequence in
        rebase_flag (record q { sequence = (q.sequence + 1) % u64_mod })
          (Heap.insert (compare_stable_prio lt) al hnd sp q.base)

    unfoldable pub pull_root : StableHeap P T → StableHeap P T
    pull_root q = record q { base = Heap.pull_root (compare_stable_prio lt) q.base }

    unfoldable pub remove : ℕ → StableHeap P T → StableHeap P T
    remove hnd q = record q { base = Heap.remove (compare_stable_prio lt) hnd q.base }
