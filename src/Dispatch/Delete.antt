-- ===== src/Dispatch/Delete.antt =====
-- The events that leave the queue: pull_queued_event and issue_delete.
use dasynq.Prelude.{
  ℕ, ◌+◌, ◌<◌, ◌≤◌, ◌≡◌, ◌≢◌, ◌⊎◌, inl, inr, refl, ◌∙◌, ap, write, Bool, true, false, Option, none,
  some, List, ◌∷◌, ◌==◌, arith, Bool-cases, Option-cases,
}
use dasynq.Prelude.Int.{ℤ, ltb_ℤ}
use dasynq.Prelude.Compare.{int_compare}
use dasynq.Heap
use dasynq.Heap.Valid.{update, queued-get_root}
use dasynq.Heap.Remove.{remove_removes}
use dasynq.Heap.Reserve.{deallocate_keeps}
use dasynq.StableHeap.Defs
use dasynq.StableHeap.Defs.{StablePrio, StableHeap}
use dasynq.StableHeap.Order.{stable_compare}
use dasynq.StableHeap.Fifo
use dasynq.StableHeap.Fifo.{Before, entries, pull_root_first}
use dasynq.Dispatch.Defs.{
  Storage, PrioQueue, Dispatch, lock, dequeue_watcher, release_watcher, pull_queued_event,
  issue_delete, delete_by, mark_deleteme,
}
use dasynq.Dispatch.Queue.{IsReady, is_pending, is_pending-entries, nodes, pending}

-- The queue after a watcher was taken out, or not.
pub record Dequeued (al : Storage) (w : ℕ) (q r : PrioQueue) : Type 0 where
  pub valid : Fifo.IsValid al r
  pub entry : (g : ℕ) → entries r g ≡ update (entries q) w none g
  pub size : r.base.hvec.size_v ≤ q.base.hvec.size_v
  pub same : r.base.num_nodes ≡ q.base.num_nodes

remove-Dequeued :
    (al : Storage) (w i : ℕ) (q : PrioQueue)
    → Fifo.IsValid al q
    → q.base.heap_index w ≡ some i
    → Dequeued al w q (Defs.remove ltb_ℤ w q)
      × ((Defs.remove ltb_ℤ w q).base.hvec.size_v + 1 ≡ q.base.hvec.size_v)
unfolding Defs.remove
remove-Dequeued al w i q v e =
    let r = remove_removes (stable_compare int_compare) al w i q.base v.base e in
    (
      record {
        valid = record {
          base = r.valid;
          fresh = λ g b f. ground (arith, r.entries g, v.fresh g b);
          distinct =
              λ g k b c f f' same. ground (arith, r.entries g, r.entries k, v.distinct g k b c);
        };
        entry = r.entries;
        size = omega (arith, r.size);
        same = r.nodes;
      },
      r.size,
    )

dequeue_watcher-Dequeued :
    (al : Storage) (w : ℕ) (d : Dispatch)
    → Fifo.IsValid al d.event_queue
    → (is_pending d w ≡ false → pending d < nodes d)
    → Dequeued al w d.event_queue (dequeue_watcher w d).event_queue
      × (pending (dequeue_watcher w d) < nodes d)
unfolding dequeue_watcher Defs.is_queued Heap.is_queued
dequeue_watcher-Dequeued al w d v room = elim (Option-cases (d.event_queue.base.heap_index w)) [
  | inl e ↦
      rw (e, dequeue_watcher, Heap.is_queued)
        (
          record { valid = v; entry = λ g. ground (arith, e); size = omega arith; same = refl },
          room (ground (arith, e)),
        )
  | inr (i, e) ↦
      let (r, less) = remove-Dequeued al w i d.event_queue v e in
      rw (e, dequeue_watcher, Heap.is_queued) (r, omega (arith, less, v.base.allocated))
]

-- The queue without the watcher, whose node is not allocated any more.
pub record Released (al : Storage) (w : ℕ) (q r : PrioQueue) : Type 0 where
  pub valid : Fifo.IsValid al r
  pub entry : (g : ℕ) → entries r g ≡ update (entries q) w none g
  pub nodes : r.base.num_nodes + 1 ≡ q.base.num_nodes
  pub size : r.base.hvec.size_v ≤ q.base.hvec.size_v

pub deallocate-IsValid :
    (al : Storage) (q : PrioQueue)
    → Fifo.IsValid al q
    → q.base.hvec.size_v < q.base.num_nodes
    → Fifo.IsValid al (Defs.deallocate al q)
      × ((g : ℕ) → entries (Defs.deallocate al q) g ≡ entries q g)
      × ((Defs.deallocate al q).base.num_nodes + 1 ≡ q.base.num_nodes)
      × ((Defs.deallocate al q).base.hvec.size_v ≡ q.base.hvec.size_v)
unfolding Defs.deallocate
deallocate-IsValid al q v room =
    let (valid, _, same, size, less) =
      deallocate_keeps (stable_compare int_compare) al q.base v.base room in
    (
      record {
        base = valid;
        fresh = λ g b f. ground (arith, same g, v.fresh g b);
        distinct = λ g k b c f f' e. ground (arith, same g, same k, v.distinct g k b c);
      },
      same,
      less,
      size,
    )

-- dequeue_watcher and release_watcher, of a watcher that is queued or leaves a node to spare
pub delete-Released :
    (al : Storage) (w : ℕ) (d : Dispatch)
    → Fifo.IsValid al d.event_queue
    → (is_pending d w ≡ false → pending d < nodes d)
    → Released al w d.event_queue (release_watcher al w (dequeue_watcher w d)).event_queue
unfolding release_watcher
delete-Released al w d v room =
    let (r, less) = dequeue_watcher-Dequeued al w d v room in
    let (valid, same, nodes, size) =
      deallocate-IsValid al _ r.valid (omega (arith, less, r.same)) in
    record {
      valid = valid;
      entry = λ g. same g ∙ r.entry g;
      nodes = omega (arith, nodes, r.same);
      size = omega (arith, size, r.size);
    }

pub release_watcher-rest :
    (al : Storage) (w : ℕ) (d : Dispatch)
    → ((release_watcher al w d).watcher ≡ d.watcher)
      × ((release_watcher al w d).removed ≡ d.removed)
unfolding release_watcher
release_watcher-rest al w d = (refl, refl)

pub dequeue_watcher-rest :
    (w : ℕ) (d : Dispatch)
    → ((dequeue_watcher w d).watcher ≡ d.watcher)
      × ((dequeue_watcher w d).removed ≡ d.removed)
      × ((dequeue_watcher w d).terminated ≡ d.terminated)
unfolding dequeue_watcher
dequeue_watcher-rest w d = ground arith

-- What issue_delete does, by whether the watcher is active.
abbrev pub Ends : Storage → Bool → ℕ → Dispatch → Dispatch → Type 0
Ends al true w d r =
    (r.event_queue ≡ d.event_queue)
    × (r.removed ≡ d.removed)
    × (r.watcher ≡ write d.watcher w (mark_deleteme (d.watcher w)))
Ends al false w d r =
    Released al w d.event_queue r.event_queue
    × (r.removed ≡ w ∷ d.removed)
    × (r.watcher ≡ d.watcher)

delete_by-Ends :
    (al : Storage) (active : Bool) (w : ℕ) (d : Dispatch)
    → Fifo.IsValid al d.event_queue
    → (is_pending d w ≡ false → pending d < nodes d)
    → let r = delete_by al active w (lock d) in (r.locked ≡ false) × Ends al active w d r
unfolding delete_by
delete_by-Ends al true w d v room = (refl, (refl, refl, refl))
delete_by-Ends al false w d v room =
    let (watcher, removed, _) = dequeue_watcher-rest w (lock d) in
    (
      refl,
      (
        delete-Released al w (lock d) v room,
        ap (λ (l : List ℕ). w ∷ l)
            ((release_watcher-rest al w (dequeue_watcher w (lock d))).1 ∙ removed),
        (release_watcher-rest al w (dequeue_watcher w (lock d))).0 ∙ watcher,
      ),
    )

-- On a valid queue, with a node to spare if the watcher is not queued, issue_delete of an active watcher only
-- marks it with `deleteme`. A watcher that is not active leaves the queue, and no other watcher does; its
-- node is released, the queue stays valid, the watchers stay as they are, and watch_removed is issued. The
-- lock is free in the end.
pub issue_delete-Ends :
    (al : Storage) (w : ℕ) (d : Dispatch)
    → Fifo.IsValid al d.event_queue
    → (is_pending d w ≡ false → pending d < nodes d)
    → let r = issue_delete al w d in (r.locked ≡ false) × Ends al (d.watcher w).active w d r
unfolding issue_delete
issue_delete-Ends al w d v room = delete_by-Ends al (d.watcher w).active w d v room

-- What pull_queued_event gives of a queue that is not empty: the first watcher in the order of priority, and of
-- insertion among equal priorities.
pub record Pulled (al : Storage) (w : ℕ) (d r : Dispatch) : Type 0 where
  pub ready : IsReady al r
  pub was : is_pending d w ≡ true
  pub first :
      (a b : StablePrio ℤ) (g : ℕ)
      → entries d.event_queue w ≡ some a
      → entries d.event_queue g ≡ some b
      → g ≢ w
      → Before int_compare a b
  pub entry : (g : ℕ) → entries r.event_queue g ≡ update (entries d.event_queue) w none g
  pub size : pending r + 1 ≡ pending d
  pub rest : (r.watcher ≡ d.watcher) × (r.removed ≡ d.removed) × (nodes r ≡ nodes d)

none_pending :
    (al : Storage) (d : Dispatch)
    → IsReady al d
    → d.event_queue.base.hvec.size_v ≡ 0
    → (g : ℕ) → is_pending d g ≡ false
none_pending al d v e g = elim (Option-cases (d.event_queue.base.heap_index g)) [
  | inl n ↦ ground (arith, n)
  | inr (i, m) ↦ absurd (omega (arith, e, (v.valid.base.indexed.backward g i m).0))
]

pulled :
    (al : Storage) (d : Dispatch)
    → IsReady al d
    → 0 < d.event_queue.base.hvec.size_v
    → Pulled al
        (Defs.get_root d.event_queue)
        d
        (record d { event_queue = Defs.pull_root ltb_ℤ d.event_queue })
unfolding Defs.get_root
pulled al d v some_node =
    let root = queued-get_root d.event_queue.base v.valid.base some_node in
    let (_, valid, ordered, entry, _, size, same) =
      pull_root_first int_compare al d.event_queue _ v.valid v.ordered root in
    record {
      ready = record { valid = valid; ordered = ordered };
      was =
          is_pending-entries d _
          ∙ ap (λ (o : Option (StablePrio ℤ)). elim o [ none ↦ false | some _ ↦ true ]) root;
      first = λ a b g e f ne.
          (pull_root_first int_compare al d.event_queue a v.valid v.ordered e).0 g b ne f;
      entry = entry;
      size = size;
      rest = (refl, refl, same);
    }

-- On a ready queue, pull_queued_event gives a null pointer exactly if no watcher is queued, and then changes
-- nothing; otherwise it gives a queued watcher that no other queued watcher comes before, takes it alone out of
-- the queue, and leaves the queue ready.
pub pull_queued_event-Pulled :
    (al : Storage) (d : Dispatch)
    → IsReady al d
    → ((pull_queued_event d ≡ (d, none)) × ((g : ℕ) → is_pending d g ≡ false))
      ⊎ ((w : ℕ) × (r : Dispatch) × (pull_queued_event d ≡ (r, some w)) × Pulled al w d r)
unfolding pull_queued_event Defs.empty Heap.empty
pull_queued_event-Pulled al d v = elim (Bool-cases (d.event_queue.base.hvec.size_v == 0)) [
  | inl e ↦ inl (rw (e, pull_queued_event) refl, none_pending al d v (ground (arith, e)))
  | inr e ↦ inr (
    Defs.get_root d.event_queue,
    record d { event_queue = Defs.pull_root ltb_ℤ d.event_queue },
    rw (e, pull_queued_event) refl,
    pulled al d v (ground (arith, e)),
  )
]
