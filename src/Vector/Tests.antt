-- ===== src/Vector/Tests.antt =====
-- Runs of the theorems about svec.h on a vector of two numbers.
use dasynq.Prelude.{◌≤◌, ◌<◌, ◌≡◌, ◌⊎◌, ◌&&◌, false, ltb, ◌==◌, if◌then◌else◌, arith, ℕ}
use dasynq.Vector.{Allocator, Vector, Ends, new_capacity, emplace_back, reserve, shrink_to}
use dasynq.Vector.Capacity.{IsValid, SameElements, Grown, grows_or_throws, shrink_to_keeps}

abbrev storage : Allocator ℕ
storage = record { grants = λ n. ltb n 50; fresh = λ n. 0; max_size = 100 }

abbrev two_numbers : Vector ℕ
two_numbers = record { array = λ i. if i == 0 then 6 else 9; size_v = 2; capacity_v = 2 }

two_numbers-IsValid : IsValid storage two_numbers
two_numbers-IsValid = omega arith

grows_or_throws_example :
    Ends
      (Grown storage two_numbers)
      ((two_numbers.size_v ≡ two_numbers.capacity_v)
        × ((storage.max_size ≤ two_numbers.size_v)
            ⊎ (storage.grants (new_capacity storage 3 false two_numbers) ≡ false)))
      (emplace_back storage two_numbers)
    × Ends
        (λ w. IsValid storage w × SameElements storage two_numbers w × (10 ≤ w.capacity_v))
        ((two_numbers.capacity_v < 10) × ((storage.max_size < 10) ⊎ (storage.grants 10 ≡ false)))
        (reserve storage 10 two_numbers)
grows_or_throws_example = grows_or_throws storage 10 two_numbers (omega arith) two_numbers-IsValid

shrink_to_keeps_example :
    IsValid storage (shrink_to storage 2 two_numbers)
    × SameElements storage two_numbers (shrink_to storage 2 two_numbers)
    × ((shrink_to storage 2 two_numbers).capacity_v
        ≡ (if ltb 2 two_numbers.capacity_v && storage.grants 2 then 2 else two_numbers.capacity_v))
shrink_to_keeps_example = shrink_to_keeps storage 2 two_numbers (omega arith) two_numbers-IsValid
