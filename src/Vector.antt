-- ===== src/Vector.antt =====
-- include/dasynq/svec.h: a vector whose capacity can shrink to any amount.
-- `array` is the raw storage, a function of the index; what lies at `size_v` and after is not
-- initialised and holds arbitrary values. What the global allocator and the element type decide is
-- the parameter `Allocator`. The element types of the queues are trivially copyable, so the move
-- helper cannot throw, and destructors do nothing.
pub mod Capacity
mod Tests
use dasynq.Prelude.{
  ℕ, ◌+◌, ◌-◌, ◌*◌, ◌/◌, Bool, true, false, ltb, leb, ◌==◌, if◌then◌else◌, copy_loop,
}

-- `grants c`: whether `new (std::nothrow) char[c * sizeof(T)]` gives storage; `fresh`: what that
-- storage holds; `max_size`: `numeric_limits<size_type>::max() / sizeof(T)`.
pub record Allocator {ℓ} (A : Type ℓ) : Type ℓ where
  pub grants : ℕ → Bool
  pub fresh : ℕ → A
  pub max_size : ℕ

pub record Vector {ℓ} (A : Type ℓ) : Type ℓ where
  pub array : ℕ → A
  pub size_v : ℕ
  pub capacity_v : ℕ

-- A call that can throw `std::bad_alloc`. The exception leaves the object as it was.
pub data Throws {ℓ} (A : Type ℓ) : Type ℓ where
  ok : A → Throws A
  bad_alloc : Throws A

-- What holds of the value if the call returns, and what holds if it throws.
abbrev pub Ends {ℓ κ} : {A : Type ℓ} → (A → Type κ) → Type κ → Throws A → Type κ
Ends P Q (ok a) = P a
Ends P Q bad_alloc = Q

module _ {ℓ} {A : Type ℓ} where
  -- svec_helper::move_helper<T>::move
  unfoldable pub move : (ℕ → A) → (ℕ → A) → ℕ → ℕ → A
  unfolding copy_loop
  move from to count = copy_loop count 0 from to

  unfoldable pub change_capacity : Allocator A → ℕ → Vector A → Vector A × Bool
  change_capacity al c v =
      if al.grants c
      then (record v { array = move v.array al.fresh v.size_v; capacity_v = c }, true)
      else (v, false)

  unfoldable pub new_capacity : Allocator A → ℕ → Bool → Vector A → ℕ
  new_capacity al c exact v =
      if exact
      then c
      else if leb (al.max_size / 2) v.capacity_v
      then al.max_size
      else if v.capacity_v == 0
      then 4
      else v.capacity_v * 2

  unfoldable pub ensure_capacity : Allocator A → ℕ → Bool → Vector A → Vector A × Bool
  ensure_capacity al c exact v =
      if leb c v.capacity_v
      then (v, true)
      else if ltb al.max_size c
      then (v, false)
      else change_capacity al (new_capacity al c exact v) v

  unfoldable pub size : Vector A → ℕ
  size v = v.size_v

  unfoldable pub capacity : Vector A → ℕ
  capacity v = v.capacity_v

  unfoldable pub empty : Vector A → Bool
  empty v = v.size_v == 0

  unfoldable pub at : Vector A → ℕ → A
  at v i = v.array i

  unfoldable pub back : Vector A → A
  back v = v.array (v.size_v - 1)

  -- `emplace_back()` of a type whose default constructor does nothing: the new cell is not written.
  unfoldable pub emplace_back : Allocator A → Vector A → Throws (Vector A)
  emplace_back al v =
      let (v', enough) = ensure_capacity al (v.size_v + 1) false v in
      if enough then ok (record v' { size_v = v'.size_v + 1 }) else bad_alloc

  unfoldable pub pop_back : Vector A → Vector A
  pop_back v = record v { size_v = v.size_v - 1 }

  unfoldable pub reserve : Allocator A → ℕ → Vector A → Throws (Vector A)
  reserve al amount v =
      let (v', enough) = ensure_capacity al amount true v in if enough then ok v' else bad_alloc

  unfoldable pub shrink_to : Allocator A → ℕ → Vector A → Vector A
  shrink_to al amount v = if ltb amount v.capacity_v then (change_capacity al amount v).0 else v
