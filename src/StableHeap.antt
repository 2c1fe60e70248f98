-- ===== src/StableHeap.antt =====
-- include/dasynq/stableheap.h: the queue of queued events. It adds a sequence number to the priority,
-- so that entries of the same priority leave in the order in which they came. The base is the heap of
-- Heap.antt, and `sequence` is a `uint64_t`, which wraps around.
pub mod Defs
pub mod Order
pub mod Fifo
mod Tests
