-- ===== src/Dispatch/Queue.antt =====
-- The queue of pending events, as event_dispatch uses it.
use dasynq.Prelude.{
  ℕ, ◌+◌, ◌<◌, ◌≡◌, refl, Bool, true, false, none, some, ◌==◌, if◌then◌else◌, arith,
}
use dasynq.Prelude.Compare.{int_compare}
use dasynq.Heap.Valid.{IsOrdered, update}
use dasynq.StableHeap.Defs.{u64_mod, stamp}
use dasynq.StableHeap.Order.{stable_compare}
use dasynq.StableHeap.Fifo
use dasynq.StableHeap.Fifo.{Before, entries, insert_stamps, pull_root_first}
use dasynq.Dispatch.Defs.{Storage, Dispatch, queue_watcher}

-- The queue is valid and in order.
pub record IsReady (al : Storage) (d : Dispatch) : Type 0 where
  pub valid : Fifo.IsValid al d.event_queue
  pub ordered : IsOrdered (stable_compare int_compare) d.event_queue.base

-- whether a watcher is queued
abbrev pub is_pending : Dispatch → ℕ → Bool
is_pending d w = elim (d.event_queue.base.heap_index w) [ none ↦ false | some _ ↦ true ]

-- the number of allocated nodes, and of those that are queued
abbrev pub nodes : Dispatch → ℕ
nodes d = d.event_queue.base.num_nodes

abbrev pub pending : Dispatch → ℕ
pending d = d.event_queue.base.hvec.size_v

pub is_pending-entries :
    (d : Dispatch) (g : ℕ)
    → is_pending d g ≡ (elim (entries d.event_queue g) [ none ↦ false | some _ ↦ true ])
is_pending-entries d g = ground arith

-- What queue_watcher leaves.
pub record Queued (al : Storage) (w : ℕ) (d r : Dispatch) : Type 0 where
  pub ready : IsReady al r
  pub entry :
      (g : ℕ)
      → entries r.event_queue g
        ≡ update
            (entries d.event_queue)
            w
            (some (stamp (d.watcher w).priority d.event_queue.sequence))
            g
  pub here : (g : ℕ) → is_pending r g ≡ (if g == w then true else is_pending d g)
  pub counted : r.event_queue.sequence ≡ d.event_queue.sequence + 1
  pub size : pending r ≡ pending d + 1
  pub same : nodes r ≡ nodes d
  pub rest :
      (r.watcher ≡ d.watcher)
      × (r.locked ≡ d.locked)
      × (r.removed ≡ d.removed)
      × (r.terminated ≡ d.terminated)

pub queue_watcher-Queued :
    (al : Storage) (w : ℕ) (d : Dispatch)
    → IsReady al d
    → is_pending d w ≡ false
    → pending d < nodes d
    → d.event_queue.sequence + 1 < u64_mod
    → Queued al w d (queue_watcher al w d)
unfolding queue_watcher
queue_watcher-Queued al w d v free room counter =
    let (r, e, i) =
      insert_stamps int_compare al w (d.watcher w).priority d.event_queue v.valid v.ordered
        (ground arith) room counter in
    rw (e, queue_watcher)
      (record {
        ready = record { valid = i.valid; ordered = i.ordered };
        entry = i.entry;
        here = λ g. ground (arith, i.entry g);
        counted = i.counted;
        size = i.size;
        same = i.nodes;
        rest = (refl, refl, refl, refl);
      })
