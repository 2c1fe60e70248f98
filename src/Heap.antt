-- ===== src/Heap.antt =====
-- include/dasynq/daryheap.h: a priority queue kept as a heap in a vector, with the fan-out 4 that
-- every queue of the library has. A handle is a number; the two fields of a `handle_t`, which lies
-- outside the heap, are kept here as functions of the handle. `none` for a `heap_index` stands for
-- `(hindex_t) -1`. Indices are below twice the size of the vector, so they do not overflow.
pub mod Index
pub mod Order
pub mod Up
pub mod Valid
pub mod Insert
pub mod Remove
pub mod Reserve
pub mod Reprioritize
mod Tests
use dasynq.Prelude.{
  ℕ, zero, suc, ◌+◌, ◌-◌, ◌*◌, ◌/◌, ◌%◌, min, Bool, true, false, Option, none, some, ltb, leb, ◌==◌,
  if◌then◌else◌, write,
}
use dasynq.Vector
use dasynq.Vector.{Allocator, Vector, Throws, ok, bad_alloc}

pub record Node (P : Type 0) : Type 0 where
  pub prio : P
  pub hnd : ℕ

-- The cells of `hvec` and the `heap_index` of each handle, which the loops write.
pub record Cells (P : Type 0) : Type 0 where
  pub cell : ℕ → Node P
  pub heap_index : ℕ → Option ℕ

pub record Heap (P T : Type 0) : Type 0 where
  pub hvec : Vector (Node P)
  pub num_nodes : ℕ
  pub heap_index : ℕ → Option ℕ
  pub node_data : ℕ → T

abbrev pub fan_out : ℕ
fan_out = 4

-- The largest value of `size_t`, and `n--` on it.
abbrev pub size_max : ℕ
size_max = 0xffff_ffff_ffff_ffff

abbrev pub decrement : ℕ → ℕ
decrement n = if n == 0 then size_max else n - 1

abbrev pub parent_of : ℕ → ℕ
parent_of pos = (pos - 1) / fan_out

module _ {P : Type 0} where
  -- hvec[to] = std::move(hvec[from]); hvec[to].hnd->heap_index = to
  abbrev pub shift : ℕ → ℕ → Cells P → Cells P
  shift to from s = record {
    cell = write s.cell to (s.cell from);
    heap_index = write s.heap_index (s.cell from).hnd (some to);
  }

  -- hvec[pos].hnd = h; hvec[pos].prio = p; h->heap_index = pos
  abbrev pub place : ℕ → ℕ → P → Cells P → Cells P
  place pos h p s = record {
    cell = write s.cell pos (record { prio = p; hnd = h });
    heap_index = write s.heap_index h (some pos);
  }

  -- What `allocate` does to the vector when its capacity is below the number of nodes. An
  -- exception of the first `reserve` is caught.
  unfoldable pub make_room : Allocator (Node P) → ℕ → Vector (Node P) → Throws (Vector (Node P))
  make_room al num_nodes v =
      elim (Vector.reserve al
        (if ltb num_nodes (al.max_size / 2) then num_nodes * 2 else al.max_size) v) [
          | ok v' ↦ ok v'
          | bad_alloc ↦ Vector.reserve al num_nodes v
        ]

module _ {P T : Type 0} where
  abbrev pub cells : Heap P T → Cells P
  cells q = record { cell = q.hvec.array; heap_index = q.heap_index }

  abbrev pub set_cells : Heap P T → Cells P → Heap P T
  set_cells q s = record q { hvec = record q.hvec { array = s.cell }; heap_index = s.heap_index }

  -- The end of `allocate`: the node is counted and its handle made, unless there is no room.
  abbrev pub construct : ℕ → T → Heap P T → Throws (Vector (Node P)) → Throws (Heap P T)
  construct hnd u q (ok v) = ok (record q {
    hvec = v;
    num_nodes = q.num_nodes + 1;
    heap_index = write q.heap_index hnd none;
    node_data = write q.node_data hnd u;
  })
  construct hnd u q bad_alloc = bad_alloc

  unfoldable pub allocate : Allocator (Node P) → ℕ → T → Heap P T → Throws (Heap P T)
  allocate al hnd u q =
      let num_nodes = q.num_nodes + 1 in
      let room =
        if ltb q.hvec.capacity_v num_nodes then make_room al num_nodes q.hvec else ok q.hvec in
      if q.num_nodes == al.max_size then bad_alloc else construct hnd u q room

  unfoldable pub deallocate : Allocator (Node P) → Heap P T → Heap P T
  deallocate al q =
      let num_nodes = decrement q.num_nodes in
      record q {
        num_nodes = num_nodes;
        hvec =
            if ltb num_nodes (q.hvec.capacity_v / 4)
            then Vector.shrink_to al (num_nodes * 2) q.hvec
            else q.hvec;
      }

  unfoldable pub get_root : Heap P T → ℕ
  get_root q = (q.hvec.array 0).hnd

  unfoldable pub get_root_priority : Heap P T → P
  get_root_priority q = (q.hvec.array 0).prio

  unfoldable pub empty : Heap P T → Bool
  empty q = q.hvec.size_v == 0

  unfoldable pub is_queued : Heap P T → ℕ → Bool
  is_queued q hnd = elim (q.heap_index hnd) [ some _ ↦ true | none ↦ false ]

  unfoldable pub size : Heap P T → ℕ
  size q = q.hvec.size_v

-- A `size_t` of 64 bits that is converted to an `int` and, as an index, back.
unfoldable pub int_index : ℕ → ℕ
int_index i =
    let n = i % 4_294_967_296 in if ltb n 2_147_483_648 then n else n + 18_446_744_069_414_584_320

module _ {P : Type 0} (lt : P → P → Bool) where
  -- The `while` of bubble_down, with the cells and the position that it leaves. Each round goes to
  -- a smaller position, so a fuel of `pos` lasts until the position is 0.
  unfoldable pub bubble_down_loop : ℕ → ℕ → P → Cells P → Cells P × ℕ
  bubble_down_loop zero pos op s = (s, pos)
  bubble_down_loop (suc k) pos op s =
      let parent = parent_of pos in
      let rest = bubble_down_loop k parent op (shift pos parent s) in
      if ltb 0 pos then (if lt op (s.cell parent).prio then rest else (s, pos)) else (s, pos)

  -- The `for` of bubble_up, with `n` rounds to go.
  unfoldable pub select_loop : ℕ → ℕ → ℕ → (ℕ → Node P) → ℕ
  select_loop zero i selchild cell = selchild
  select_loop (suc n) i selchild cell =
      select_loop n (i + 1) (if lt (cell i).prio (cell selchild).prio then i else selchild) cell

  unfoldable pub select_child : ℕ → ℕ → (ℕ → Node P) → ℕ
  select_child pos rmax cell =
      let lchild = pos * fan_out + 1 in
      let rchild = min (lchild + fan_out) rmax in
      select_loop (rchild - (lchild + 1)) (lchild + 1) lchild cell

  -- The `while` of bubble_up. Each round goes to a larger position, which stays at `rmax` or below,
  -- so a fuel of `rmax + 1` is enough.
  unfoldable pub bubble_up_loop : ℕ → ℕ → ℕ → P → Cells P → Cells P × ℕ
  bubble_up_loop zero rmax pos p s = (s, pos)
  bubble_up_loop (suc k) rmax pos p s =
      let selchild = select_child pos rmax s.cell in
      let rest = bubble_up_loop k rmax selchild p (shift pos selchild s) in
      if leb pos ((rmax - 1) / fan_out)
      then (if lt (s.cell selchild).prio p then rest else (s, pos))
      else (s, pos)

  module _ {T : Type 0} where
    unfoldable pub bubble_down : ℕ → ℕ → P → Heap P T → Heap P T × Bool
    bubble_down pos ohndl op q =
        let (s, pos') = bubble_down_loop pos pos op (cells q) in
        (set_cells q (place pos' ohndl op s), pos' == 0)

    unfoldable pub bubble_up : ℕ → ℕ → P → Heap P T → Heap P T
    bubble_up pos h p q =
        let rmax = q.hvec.size_v - 1 in
        let (s, pos') = bubble_up_loop (rmax + 1) rmax pos p (cells q) in
        if rmax == 0 then q else set_cells q (place pos' h p s)

    unfoldable pub remove_h : ℕ → Heap P T → Heap P T
    unfolding bubble_up
    remove_h hidx q =
        let q' = record q { heap_index = write q.heap_index (q.hvec.array hidx).hnd none } in
        let last = Vector.back q'.hvec in
        let q'' = if q.hvec.size_v == hidx + 1 then q' else bubble_up hidx last.hnd last.prio q' in
        record q'' { hvec = Vector.pop_back q''.hvec }

    -- An exception here ends the program, since `insert` is noexcept.
    unfoldable pub insert : Allocator (Node P) → ℕ → P → Heap P T → Throws (Heap P T × Bool)
    unfolding bubble_down
    insert al hnd pval q = elim (Vector.emplace_back al q.hvec) [
      | ok v ↦ ok (
          bubble_down (v.size_v - 1) hnd pval
            (record q { hvec = v; heap_index = write q.heap_index hnd (some q.hvec.size_v) }))
      | bad_alloc ↦ bad_alloc
    ]

    unfoldable pub pull_root : Heap P T → Heap P T
    pull_root q = remove_h 0 q

    -- `remove` is called on a handle that is queued.
    unfoldable pub remove : ℕ → Heap P T → Heap P T
    remove hnd q = elim (q.heap_index hnd) [ some i ↦ remove_h i q | none ↦ q ]

    -- hvec[i].prio = p, and the bubbling that set_priority then does
    unfoldable pub reprioritize : ℕ → P → Heap P T → Heap P T × Bool
    unfolding bubble_down bubble_up
    reprioritize i p q =
        let node = q.hvec.array i in
        let v = record q.hvec { array = write q.hvec.array i (record node { prio = p }) } in
        let q' = record q { hvec = v } in
        if lt node.prio p then (bubble_up i node.hnd p q', false) else bubble_down i node.hnd p q'

    -- `set_priority` is called on a handle that is queued. Its index goes through an `int`.
    unfoldable pub set_priority : ℕ → P → Heap P T → Heap P T × Bool
    set_priority hnd p q = elim (q.heap_index hnd) [
      | some i ↦ reprioritize (int_index i) p q
      | none ↦ (q, false)
    ]
