-- ===== src/Aggregator/Top/Rounds.antt =====
-- container/heap: the rounds that the model gives to the loops of `up` and `down` are enough, and more
-- of them change nothing.
use wb_test_task.Base.{
  ℕ, zero, suc, ◌+◌, ◌-◌, ◌*◌, ◌/◌, ◌<◌, ◌≡◌, refl, true, List, length, leb, ◌==◌, arith, inl, inr,
  Bool-cases,
}
use wb_test_task.Aggregator.Top.{TopItem, swap, up_loop, worse_child, down_loop}
use wb_test_task.Aggregator.Top.Slice.{length-swap}

-- From index j, j + 1 rounds of the loop of `up` are enough.
up_loop_rounds :
    (m n : ℕ) (h : List TopItem) (j : ℕ) → j < m → j < n → up_loop m h j ≡ up_loop n h j
unfolding up_loop
up_loop_rounds zero n h j p q = absurd (omega arith)
up_loop_rounds (suc m) zero h j p q = absurd (omega arith)
up_loop_rounds (suc m) (suc n) h j p q = elim (Bool-cases ((j - 1) / 2 == j)) [
  | inl e ↦ rw e refl
  | inr e ↦
      rw (up_loop_rounds m n (swap h ((j - 1) / 2) j) ((j - 1) / 2) (ground arith) (ground arith))
        refl
]

worse_child-below : (h : List TopItem) (i : ℕ) → i < worse_child h i
unfolding worse_child
worse_child-below h i = ground arith

-- From index i, as many rounds of the loop of `down` as there are items from i on, and one more, are
-- enough.
down_loop_rounds :
    (m n : ℕ) (h : List TopItem) (i : ℕ)
    → length h < m + i
    → length h < n + i
    → down_loop m h i ≡ down_loop n h i
unfolding down_loop
down_loop_rounds zero zero h i p q = refl
down_loop_rounds zero (suc n) h i p q =
    let e : leb (length h) (2 * i + 1) ≡ true = ground arith in rw e refl
down_loop_rounds (suc m) zero h i p q =
    let e : leb (length h) (2 * i + 1) ≡ true = ground arith in rw e refl
down_loop_rounds (suc m) (suc n) h i p q = elim (Bool-cases (leb (length h) (2 * i + 1))) [
  | inl e ↦ rw e refl
  | inr e ↦
      let j = worse_child h i in
      let below = worse_child-below h i in
      let same : length (swap h i j) ≡ length h = length-swap h i j in
      rw
        (down_loop_rounds m n (swap h i j) j (rw same (omega (arith, below, p)))
          (rw same (omega (arith, below, q))))
        refl
]

-- The loops of heap.Push and heap.Fix come to their end within the rounds that the model gives them,
-- which for `up` at an index are one more than the index, and for `down` one more than the items: any
-- number of rounds beyond them changes nothing.
heap_loops_end :
    (h : List TopItem) (i more : ℕ)
    → (up_loop (i + 1 + more) h i ≡ up_loop (i + 1) h i)
      × (down_loop (length h + 1 + more) h i ≡ down_loop (length h + 1) h i)
heap_loops_end h i more = (
  up_loop_rounds (i + 1 + more) (i + 1) h i (omega arith) (omega arith),
  down_loop_rounds (length h + 1 + more) (length h + 1) h i (omega arith) (omega arith),
)
