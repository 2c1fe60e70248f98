-- ===== src/WaitQueue/Refine.antt =====
-- A wait queue is the list of its nodes, first in first out.
use dasynq.Prelude.{
  ℕ, ◌+◌, ◌≤◌, ◌<◌, ◌≡◌, refl, sym, ◌∙◌, true, false, none, some, List, [], ◌∷◌, ◌++◌, ◌==◌, write,
  if◌then◌else◌, arith, first, last, count, last-append,
}
use dasynq.WaitQueue.{
  WaitQueue, Links, unqueue, get_head, get_second, check_head, points_to, is_empty, queue,
}

-- every node points to the next one of the list, and the last one to none
abbrev pub Linked : Links → List ℕ → Type 0
Linked next [] = Unit {0}
Linked next (x ∷ []) = next x ≡ none
Linked next (x ∷ y ∷ xs) = (next x ≡ some y) × Linked next (y ∷ xs)

pub record IsQueue (next : Links) (q : WaitQueue) (xs : List ℕ) : Type 0 where
  pub head : q.head ≡ first xs
  pub tail : q.tail ≡ last xs
  pub linked : Linked next xs

-- Only the `next` fields of the nodes of a queue matter to it.
Linked-frame :
    (next next' : Links) (xs : List ℕ)
    → ((a : ℕ) → 0 < count a xs → next' a ≡ next a)
    → Linked next xs
    → Linked next' xs
Linked-frame next next' [] same l = tt
Linked-frame next next' (x ∷ []) same l = ground (arith, same x)
Linked-frame next next' (x ∷ y ∷ xs) same (l, ls) =
    (ground (arith, same x), Linked-frame next next' (y ∷ xs) (λ a h. same a (omega arith)) ls)

count-last : (xs : List ℕ) (t : ℕ) → last xs ≡ some t → 0 < count t xs
count-last [] t e = absurd (ground arith)
count-last (x ∷ []) t e = ground arith
count-last (x ∷ y ∷ xs) t e = ground (arith, count-last (y ∷ xs) t e)

Linked-append :
    (next : Links) (n t : ℕ) (xs : List ℕ)
    → last xs ≡ some t
    → ((a : ℕ) → count a xs ≤ (if n == a then 0 else 1))
    → Linked next xs
    → Linked (write (write next n none) t (some n)) (xs ++ n ∷ [])
Linked-append next n t [] e once l = absurd (ground arith)
Linked-append next n t (x ∷ []) e once l = ground (arith, once n)
Linked-append next n t (x ∷ y ∷ xs) e once (l, ls) = (
  ground (arith, once x, once n, count-last (y ∷ xs) t e),
  Linked-append next n t (y ∷ xs) e (λ a. omega (arith, once a)) ls,
)

-- A queue that holds `xs` and another that holds `ys`, over the same nodes: no node stands twice.
abbrev pub AreApart : List ℕ → List ℕ → Type 0
AreApart xs ys = (a : ℕ) → count a xs + count a ys ≤ 1

last-cons : (x : ℕ) (xs : List ℕ) → (t : ℕ) × (last (x ∷ xs) ≡ some t)
last-cons x [] = (x, refl)
last-cons x (y ∷ xs) = last-cons y xs

-- Of two queues over the same nodes, `queue` of a node that stands in neither puts the node at the end of
-- the one queue, and leaves the other as it is.
pub queue-IsQueue :
    (n : ℕ) (next : Links) (q r : WaitQueue) (xs ys : List ℕ)
    → IsQueue next q xs
    → IsQueue next r ys
    → AreApart (n ∷ xs) ys
    → let (q', next') = queue n next q in IsQueue next' q' (xs ++ n ∷ []) × IsQueue next' r ys
unfolding queue
queue-IsQueue n next q r [] ys v w apart =
    rw (v.tail, queue)
      (
        record { head = refl; tail = refl; linked = ground arith },
        record {
          head = w.head;
          tail = w.tail;
          linked =
              Linked-frame next (write next n none) ys (λ a h. ground (arith, apart a)) w.linked;
        },
      )
queue-IsQueue n next q r (x ∷ xs) ys v w apart =
    let (t, at_t) = last-cons x xs in
    let next' = write (write next n none) t (some n) in
    rw (v.tail ∙ at_t, queue)
      (
        record {
          head = v.head;
          tail = sym (last-append (x ∷ xs) n);
          linked = Linked-append next n t (x ∷ xs) at_t (λ a. ground (arith, apart a)) v.linked;
        },
        record {
          head = w.head;
          tail = w.tail;
          linked =
              Linked-frame next next' ys
                (λ a h. ground (arith, apart a, count-last (x ∷ xs) t at_t)) w.linked;
        },
      )

-- `unqueue` takes the first node out and gives the new first node; an emptied queue is empty.
pub unqueue-IsQueue :
    (next : Links) (q : WaitQueue) (x : ℕ) (xs : List ℕ)
    → IsQueue next q (x ∷ xs)
    → let (q', head) = unqueue next q in IsQueue next q' xs × (head ≡ first xs)
unfolding unqueue
unqueue-IsQueue next q x [] v = ground (arith, v.linked)
unqueue-IsQueue next q x (y ∷ xs) v = ground (arith, v.linked)

pub get_head-first :
    (next : Links) (q : WaitQueue) (xs : List ℕ) → IsQueue next q xs → get_head q ≡ first xs
unfolding get_head
get_head-first next q xs v = v.head

pub get_second-first :
    (next : Links) (q : WaitQueue) (x : ℕ) (xs : List ℕ)
    → IsQueue next q (x ∷ xs)
    → get_second next q ≡ first xs
unfolding get_second
get_second-first next q x [] v = ground (arith, v.linked)
get_second-first next q x (y ∷ xs) v = ground (arith, v.linked)

pub check_head-first :
    (next : Links) (q : WaitQueue) (xs : List ℕ) (node : ℕ)
    → IsQueue next q xs
    → check_head q node ≡ points_to (first xs) node
unfolding check_head
check_head-first next q xs node v = ground (arith, v.head)

pub is_empty-first :
    (next : Links) (q : WaitQueue) (xs : List ℕ)
    → IsQueue next q xs
    → is_empty q ≡ (elim (first xs) [ none ↦ true | some _ ↦ false ])
unfolding is_empty
is_empty-first next q xs v = ground (arith, v.head)
