-- ===== src/Dispatch/DeleteBidi.antt =====
-- issue_delete for a bidi watcher.
use dasynq.Prelude.{
  ℕ, ◌+◌, ◌<◌, ◌≤◌, ◌≡◌, refl, sym, subst, ap, ◌∙◌, Bool, true, false, not, ◌&&◌, ◌||◌, none, ◌∷◌,
  ◌==◌, if◌then◌else◌, arith,
}
use dasynq.StableHeap.Fifo
use dasynq.StableHeap.Fifo.{entries}
use dasynq.Watcher.{out_watcher}
use dasynq.Dispatch.Defs.{
  Storage, PrioQueue, Dispatch, set, lock, mark_deleteme, mark_read_removed, mark_write_removed,
  release_watcher, dequeue_watcher, delete_primary, delete_secondary, delete_removed,
  issue_delete_bidi,
}
use dasynq.Dispatch.Queue.{is_pending, nodes, pending}
use dasynq.Dispatch.Delete.{
  deallocate-IsValid, delete-Released, dequeue_watcher-rest, release_watcher-rest,
}

-- The queue after one half, at the handle `h`, was deleted: an active half stays as it is.
pub record Lost (al : Storage) (active : Bool) (h : ℕ) (q r : PrioQueue) : Type 0 where
  pub valid : Fifo.IsValid al r
  pub entry : (g : ℕ) → entries r g ≡ (if g == h && not active then none else entries q g)
  pub nodes : r.base.num_nodes + 1 ≡ q.base.num_nodes
  pub size : r.base.hvec.size_v ≤ q.base.hvec.size_v

active-Lost :
    (al : Storage) (w : ℕ) (d : Dispatch)
    → Fifo.IsValid al d.event_queue
    → pending d < nodes d
    → (h : ℕ) → Lost al true h d.event_queue (release_watcher al w d).event_queue
unfolding release_watcher
active-Lost al w d v room h =
    let (valid, same, nodes, size) = deallocate-IsValid al d.event_queue v room in
    record {
      valid = valid;
      entry = λ g. ground (arith, same g);
      nodes = nodes;
      size = omega (arith, size);
    }

idle-Lost :
    (al : Storage) (w h : ℕ) (d : Dispatch)
    → Fifo.IsValid al d.event_queue
    → (is_pending d h ≡ false → pending d < nodes d)
    → Lost al false h d.event_queue (release_watcher al w (dequeue_watcher h d)).event_queue
unfolding release_watcher
idle-Lost al w h d v room =
    let r = delete-Released al h d v room in
    record {
      valid = r.valid;
      entry = λ g. ground (arith, r.entry g);
      nodes = r.nodes;
      size = r.size;
    }

-- The flags of a bidi watcher: those of `r` after `read` and `write` say which halves are removed.
record Flagged (w : ℕ) (read write active : Bool) (d r : Dispatch) : Type 0 where
  reads : (r.watcher w).read_removed ≡ (read || (d.watcher w).read_removed)
  writes : (r.watcher w).write_removed ≡ (write || (d.watcher w).write_removed)
  other : (r.watcher (out_watcher w)).active ≡ (d.watcher (out_watcher w)).active
  removed : r.removed ≡ d.removed

primary-Lost :
    (al : Storage) (active : Bool) (w : ℕ) (d : Dispatch)
    → Fifo.IsValid al d.event_queue
    → pending d < nodes d
    → Lost al active w d.event_queue (delete_primary al active w d).event_queue
unfolding delete_primary
primary-Lost al true w d v room = active-Lost al w (set w mark_deleteme d) v room w
primary-Lost al false w d v room = idle-Lost al w w d v (λ e. room)

secondary-Lost :
    (al : Storage) (active : Bool) (w : ℕ) (d : Dispatch)
    → Fifo.IsValid al d.event_queue
    → pending d < nodes d
    → Lost al active (out_watcher w) d.event_queue (delete_secondary al active w d).event_queue
unfolding delete_secondary
secondary-Lost al true w d v room =
    active-Lost al w (set (out_watcher w) mark_deleteme d) v room (out_watcher w)
secondary-Lost al false w d v room = idle-Lost al w (out_watcher w) d v (λ e. room)

primary-Flagged :
    (al : Storage) (active : Bool) (w : ℕ) (d : Dispatch)
    → Flagged w (not active) false active d (delete_primary al active w d)
unfolding delete_primary mark_deleteme mark_read_removed
primary-Flagged al true w d =
    let (e, f) = release_watcher-rest al w (set w mark_deleteme d) in
    record {
      reads = ground (arith, e);
      writes = ground (arith, e);
      other = ground (arith, e);
      removed = f;
    }
primary-Flagged al false w d =
    let (e, f) = release_watcher-rest al w (dequeue_watcher w d) in
    let (e', f', _) = dequeue_watcher-rest w d in
    record {
      reads = ground (arith, e, e');
      writes = ground (arith, e, e');
      other = ground (arith, e, e');
      removed = f ∙ f';
    }

secondary-Flagged :
    (al : Storage) (active : Bool) (w : ℕ) (d : Dispatch)
    → Flagged w false (not active) active d (delete_secondary al active w d)
unfolding delete_secondary mark_deleteme mark_write_removed
secondary-Flagged al true w d =
    let (e, f) = release_watcher-rest al w (set (out_watcher w) mark_deleteme d) in
    record {
      reads = ground (arith, e);
      writes = ground (arith, e);
      other = ground (arith, e);
      removed = f;
    }
secondary-Flagged al false w d =
    let (e, f) = release_watcher-rest al w (dequeue_watcher (out_watcher w) d) in
    let (e', f', _) = dequeue_watcher-rest (out_watcher w) d in
    record {
      reads = ground (arith, e, e');
      writes = ground (arith, e, e');
      other = ground (arith, e, e');
      removed = f ∙ f';
    }

delete_removed-Ends :
    (al : Storage) (b : Bool) (w : ℕ) (d : Dispatch)
    → ((delete_removed al b w d).event_queue ≡ d.event_queue)
      × ((delete_removed al b w d).removed ≡ (if b then w ∷ d.removed else d.removed))
      × ((delete_removed al b w d).locked ≡ false)
unfolding delete_removed
delete_removed-Ends al true w d = (refl, refl, refl)
delete_removed-Ends al false w d = (refl, refl, refl)

-- What issue_delete leaves, by whether the primary and the secondary half are active.
pub record Deleted (al : Storage) (active other : Bool) (w : ℕ) (d r : Dispatch) : Type 0 where
  pub valid : Fifo.IsValid al r.event_queue
  pub entry :
      (g : ℕ)
      → entries r.event_queue g ≡ (
          if (g == w && not active) || (g == out_watcher w && not other)
          then none
          else entries d.event_queue g)
  pub released : nodes r + 2 ≡ nodes d
  pub removed : r.removed ≡ (if active || other then d.removed else w ∷ d.removed)
  pub locked : r.locked ≡ false

-- On a valid queue with two nodes to spare, for a bidi watcher of which no half is removed, issue_delete takes
-- the halves that are not active out of the queue, and no other watcher, leaves the queue valid and the lock
-- free, and issues watch_removed if neither half is active. It releases two nodes, also if a half is active.
pub issue_delete_bidi-Deleted :
    (al : Storage) (w : ℕ) (d : Dispatch)
    → Fifo.IsValid al d.event_queue
    → pending d + 2 ≤ nodes d
    → (d.watcher w).read_removed ≡ false
    → (d.watcher w).write_removed ≡ false
    → Deleted al
        (d.watcher w).active
        (d.watcher (out_watcher w)).active
        w
        d
        (issue_delete_bidi al w d)
unfolding issue_delete_bidi
issue_delete_bidi-Deleted al w d v room nr nw =
    let d1 = delete_primary al (d.watcher w).active w (lock d) in
    let a = primary-Lost al (d.watcher w).active w (lock d) v (omega arith) in
    let f = primary-Flagged al (d.watcher w).active w (lock d) in
    let d2 = delete_secondary al (d1.watcher (out_watcher w)).active w d1 in
    let b =
      secondary-Lost al (d1.watcher (out_watcher w)).active w d1 a.valid
        (omega (arith, a.size, a.nodes)) in
    let g = secondary-Flagged al (d1.watcher (out_watcher w)).active w d1 in
    let e =
      delete_removed-Ends al ((d2.watcher w).read_removed && (d2.watcher w).write_removed) w d2 in
    record {
      valid = subst (λ (q : PrioQueue). Fifo.IsValid al q) (sym e.0) b.valid;
      entry = λ k.
          ap (λ (q : PrioQueue). entries q k) e.0 ∙ ground (arith, a.entry k, b.entry k, f.other);
      released = ap (λ (q : PrioQueue). q.base.num_nodes + 2) e.0 ∙ omega (arith, a.nodes, b.nodes);
      removed =
          e.1 ∙ ground (arith, f.removed, g.removed, f.reads, f.writes, f.other, g.reads, g.writes);
      locked = e.2;
    }
