-- ===== src/EventLoop/Guarantee.antt =====
-- A registration that throws leaves no node behind: register_signal, reserve_child_watch and register_child.
use dasynq.Prelude.{ℕ, ◌+◌, ◌≡◌, ◌⊎◌, refl, sym, subst, ◌∙◌, Bool, true, false, none, arith}
use dasynq.Prelude.Int.{ℤ}
use dasynq.Prelude.Compare.{int_compare}
use dasynq.Vector.{Throws, ok, bad_alloc, Ends}
use dasynq.Heap.{Heap}
use dasynq.Heap.Valid.{IsOrdered}
use dasynq.Heap.Reserve.{Allocated, allocate-Ends, deallocate_keeps}
use dasynq.StableHeap.Defs as Stable
use dasynq.StableHeap.Defs.{StablePrio, rebase}
use dasynq.StableHeap.Order.{stable_compare}
use dasynq.StableHeap.Fifo
use dasynq.StableHeap.Fifo.{entries}
use dasynq.Dispatch.Defs
use dasynq.Dispatch.Defs.{Storage, PrioQueue, Dispatch, with_queue, lock}
use dasynq.EventLoop.Defs.{Mechanism, Loop, on_dispatch}
use dasynq.EventLoop.Keeps.{interrupt_after-Keeps}
use dasynq.EventLoop.Register.{
  Registry, catching, prepared, try_register, guarded, after_add, register_signal,
  reserve_child_watch, register_child, add_signal, reserve_child, add_child,
}

module _ (al : Storage) where
  -- The queue `r` is valid and in order, with the entries of `q` and `more` nodes more.
  pub record Registered (more : ℕ) (q r : PrioQueue) : Type 0 where
    pub valid : Fifo.IsValid al r
    pub ordered : IsOrdered (stable_compare int_compare) r.base
    pub entry : (g : ℕ) → entries r g ≡ entries q g
    pub nodes : r.base.num_nodes ≡ q.base.num_nodes + more
    pub size : r.base.hvec.size_v ≡ q.base.hvec.size_v

  module _ (q : PrioQueue) (v : Fifo.IsValid al q)
      (o : IsOrdered (stable_compare int_compare) q.base) where
    allocated :
        (w : ℕ) (base : Heap (StablePrio ℤ) (Unit {0}))
        → Allocated (stable_compare int_compare) al w tt q.base base
        → Registered 1 q (record q { base = base })
    allocated w base a = record {
      valid = record {
        base = a.valid;
        fresh = λ g b f. ground (arith, a.entries g, v.fresh g b);
        distinct = λ g k b c f f' e. ground (arith, a.entries g, a.entries k, v.distinct g k b c);
      };
      ordered = a.ordered;
      entry = a.entries;
      nodes = a.nodes;
      size = a.size;
    }

    released : (r : PrioQueue) → Registered 1 q r → Registered 0 q (Stable.deallocate al r)
    unfolding Stable.deallocate
    released r a =
        let (valid, ordered, same, size, less) =
          deallocate_keeps (stable_compare int_compare) al r.base a.valid.base
            (omega (arith, a.size, a.nodes, v.base.allocated)) in
        record {
          valid = record {
            base = valid;
            fresh = λ g b f. ground (arith, same g, a.valid.fresh g b);
            distinct = λ g k b c f f' e. ground (arith, same g, same k, a.valid.distinct g k b c);
          };
          ordered = ordered a.ordered;
          entry = λ g. same g ∙ a.entry g;
          nodes = omega (arith, less, a.nodes);
          size = size ∙ a.size;
        }

    same_queue : Registered 0 q q
    same_queue = record {
      valid = v;
      ordered = o;
      entry = λ g. refl;
      nodes = omega arith;
      size = refl;
    }

  -- 1 if the registration returned
  abbrev pub added : Bool → ℕ
  added true = 1
  added false = 0

  module _ {M : Type 0} (w : ℕ) (body : Loop M → Loop M × Bool)
      (keeps : (l : Loop M) → (body l).0.dispatch.event_queue ≡ l.dispatch.event_queue) (l : Loop M)
      (v : Fifo.IsValid al l.dispatch.event_queue)
      (o : IsOrdered (stable_compare int_compare) l.dispatch.event_queue.base) where
    abbrev pub Result : Loop M × Bool → Type 0
    Result (r, done) = Registered (added done) l.dispatch.event_queue r.dispatch.event_queue

    catching-Result :
        (done : Bool) (r : Loop M)
        → Registered 1 l.dispatch.event_queue r.dispatch.event_queue
        → Result (catching al w (r, done))
    unfolding catching Defs.release_watcher
    catching-Result true r a = a
    catching-Result false r a = released l.dispatch.event_queue v o r.dispatch.event_queue a

    prepared-Result :
        (t : Throws (Heap (StablePrio ℤ) (Unit {0})))
        → Ends
            (Allocated (stable_compare int_compare) al w tt l.dispatch.event_queue.base)
            ((l.dispatch.event_queue.base.num_nodes ≡ al.max_size)
              ⊎ (al.grants (l.dispatch.event_queue.base.num_nodes + 1) ≡ false))
            t
        → Result (prepared al w body l (with_queue l.dispatch (rebase l.dispatch.event_queue t)))
    unfolding prepared
    prepared-Result bad_alloc e = same_queue l.dispatch.event_queue v o
    prepared-Result (ok base) a =
        let q = record l.dispatch.event_queue { base = base } in
        let l1 = record l { dispatch = record l.dispatch { event_queue = q } } in
        catching-Result (body l1).1 (body l1).0 (
          subst (λ (p : PrioQueue). Registered 1 l.dispatch.event_queue p) (sym (keeps l1))
            (allocated l.dispatch.event_queue v o w base a))

    try_register-Result :
        l.dispatch.event_queue.base.heap_index w ≡ none → Result (try_register al w body l)
    unfolding try_register Defs.prepare_watcher Stable.allocate
    try_register-Result free = prepared-Result _ (
        allocate-Ends (stable_compare int_compare) al w tt l.dispatch.event_queue.base v.base o
          free)

module _ {M : Type 0} (al : Storage) (m : Mechanism M) (registry : Registry M) where
  after_add-queue :
      (wanted : Bool) (l : Loop M) (done : Bool)
      → (after_add al m registry wanted (l, done)).0.dispatch.event_queue ≡ l.dispatch.event_queue
  unfolding after_add
  after_add-queue wanted l true = (interrupt_after-Keeps m wanted l).queue
  after_add-queue wanted l false = refl

  -- What a registration of `w` leaves: one node more if it returned, and none if it threw.
  abbrev pub Guaranteed : Loop M → Loop M × Bool → Type 0
  Guaranteed l (r, done) =
      Registered al (added al done) l.dispatch.event_queue r.dispatch.event_queue
      × (r.dispatch.locked ≡ false)

  guarded-Guaranteed :
      (w : ℕ) (body : Loop M → Loop M × Bool) (l : Loop M)
      → ((l' : Loop M) → (body l').0.dispatch.event_queue ≡ l'.dispatch.event_queue)
      → Fifo.IsValid al l.dispatch.event_queue
      → IsOrdered (stable_compare int_compare) l.dispatch.event_queue.base
      → l.dispatch.event_queue.base.heap_index w ≡ none
      → Guaranteed l (guarded al (try_register al w body) l)
  unfolding guarded
  guarded-Guaranteed w body l keeps v o free =
      (try_register-Result al w body keeps (on_dispatch lock l) v o free, refl)

  -- On a valid ordered queue, with a watcher that is not queued, register_signal, reserve_child_watch and
  -- register_child leave the queue valid and ordered with the same entries, and the lock free, whatever the
  -- mechanism does and whether or not the storage for the node is granted. If the call returns there is one
  -- node more, and if it throws there are as many as before.
  pub registration-Guaranteed :
      (w signo child : ℕ) (l : Loop M)
      → Fifo.IsValid al l.dispatch.event_queue
      → IsOrdered (stable_compare int_compare) l.dispatch.event_queue.base
      → l.dispatch.event_queue.base.heap_index w ≡ none
      → Guaranteed l (register_signal al m registry w signo l)
        × Guaranteed l (reserve_child_watch al m registry w l)
        × Guaranteed l (register_child al m registry w child l)
  unfolding register_signal reserve_child_watch register_child add_signal reserve_child add_child
  registration-Guaranteed w signo child l v o free = (
    guarded-Guaranteed w (add_signal al m registry w signo) l
        (λ l'.
          let r = registry.add_signal_watch_nolock signo w l'.loop_mech in
          after_add-queue m.interrupt_after_signal_add (record l' { loop_mech = r.0 }) r.1)
        v o free,
    guarded-Guaranteed w (reserve_child al m registry w) l (λ l'. refl) v o free,
    guarded-Guaranteed w (add_child al m registry w child) l (λ l'. refl) v o free,
  )
