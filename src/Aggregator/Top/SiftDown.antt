-- ===== src/Aggregator/Top/SiftDown.antt =====
-- container/heap: the loop of `down` restores the order of the heap below an index.
use mathlib.Core.List.Perm
use wb_test_task.Base.{
  ℕ, zero, suc, ◌+◌, ◌*◌, ◌<◌, ◌≡◌, ◌≢◌, sym, ◌∙◌, true, false, ◌&&◌, List, length, ltb, leb, arith,
  inl, inr, Bool-cases, ◌⊎◌,
}
use wb_test_task.Aggregator.Top.{TopItem, item_at, less, swap, worse_child, down_loop}
use wb_test_task.Aggregator.Top.Order.{better, better_irrefl, better_asym, worse_trans}
use wb_test_task.Aggregator.Top.Slice.{item_at-swap, length-swap}
use wb_test_task.Aggregator.Top.Sift.{
  parent, AreSmall, IsHeap, Sifted, less-eq-better, swap-AreSmall, Sifted-swap,
}

-- Only the edges below i may be out of order.
pub record DownInv (h : List TopItem) (i : ℕ) : Type 0 where
  pub edges :
      (c : ℕ)
      → 0 < c
      → c < length h
      → parent c ≢ i
      → better (item_at h (parent c)) (item_at h c) ≡ false
  pub bridged :
      (c : ℕ)
      → 0 < i
      → 0 < c
      → parent c ≡ i
      → c < length h
      → better (item_at h (parent i)) (item_at h c) ≡ false

child-cases : (c i : ℕ) → 0 < c → parent c ≡ i → (c ≡ 2 * i + 1) ⊎ (c ≡ 2 * i + 1 + 1)
child-cases c i p e = omega arith

-- A child of i that is better than no other child of i.
record IsWorseChild (h : List TopItem) (i j : ℕ) : Type 0 where
  pub inside : j < length h
  child : parent j ≡ i
  later : 0 < j
  worst : (c : ℕ) → 0 < c → parent c ≡ i → c < length h → better (item_at h j) (item_at h c) ≡ false

worst_of_two :
    (h : List TopItem) (i j c : ℕ)
    → (better (item_at h j) (item_at h (2 * i + 1)) ≡ false)
    → (2 * i + 1 + 1 < length h → better (item_at h j) (item_at h (2 * i + 1 + 1)) ≡ false)
    → (c ≡ 2 * i + 1) ⊎ (c ≡ 2 * i + 1 + 1)
    → c < length h
    → better (item_at h j) (item_at h c) ≡ false
worst_of_two h i j c p q (inl e) b = rw e p
worst_of_two h i j c p q (inr e) b = rw e (q (omega arith))

worse_child-IsWorseChild :
    (h : List TopItem) (i : ℕ)
    → AreSmall h
    → 2 * i + 1 < length h
    → IsWorseChild h i (worse_child h i)
unfolding worse_child
worse_child-IsWorseChild h i s p =
    let left = 2 * i + 1 in
    let right = 2 * i + 1 + 1 in
    elim (Bool-cases (ltb right (length h) && less h right left)) [
      | inl e ↦
          let pair : (right < length h) × (better (item_at h left) (item_at h right) ≡ true) =
            ground (arith, less-eq-better h right left s) in
          rw e (record {
            inside = pair.0;
            child = omega arith;
            later = omega arith;
            worst = λ c q x b.
                worst_of_two h i right c (better_asym (item_at h left) (item_at h right) pair.1)
                  (λ _. better_irrefl (item_at h right)) (child-cases c i q x) b;
          })
      | inr e ↦ rw e (record {
        inside = p;
        child = omega arith;
        later = omega arith;
        worst = λ c q x b.
            worst_of_two h i left c (better_irrefl (item_at h left))
              (λ y. ground (arith, e, less-eq-better h right left s)) (child-cases c i q x) b;
      })
    ]

swap-DownInv :
    (h : List TopItem) (i j : ℕ)
    → DownInv h i
    → IsWorseChild h i j
    → better (item_at h i) (item_at h j) ≡ true
    → DownInv (swap h i j) j
swap-DownInv h i j v w worse =
    let above : i < length h = omega (arith, w.inside, w.child) in
    let at = item_at-swap h i j above w.inside in
    let asym = better_asym (item_at h i) (item_at h j) worse in
    record {
      edges = λ c p q r. ground (
        arith,
        at c,
        at (parent c),
        v.edges c,
        v.bridged j,
        w.child,
        w.later,
        w.inside,
        w.worst c,
        asym,
        length-swap h i j,
      );
      bridged = λ c o p q r.
          ground (arith, at c, at (parent j), v.edges c, w.child, w.later, length-swap h i j);
    }

settled-IsHeap :
    (h : List TopItem) (i j : ℕ)
    → DownInv h i
    → IsWorseChild h i j
    → better (item_at h i) (item_at h j) ≡ false
    → IsHeap h
settled-IsHeap h i j v w e c p q =
    ground
      (arith, v.edges c p q, w.worst c p, worse_trans (item_at h i) (item_at h j) (item_at h c))

pub down_loop-Sifted :
    (fuel : ℕ) (h : List TopItem) (i : ℕ)
    → length h < fuel + i
    → AreSmall h
    → DownInv h i
    → Sifted h (down_loop fuel h i).0
unfolding down_loop
down_loop-Sifted zero h i f s v = record {
  heap = λ c p q. v.edges c p q (omega arith);
  perm = Perm.refl h;
}
down_loop-Sifted (suc fuel) h i f s v = elim (Bool-cases (leb (length h) (2 * i + 1))) [
  | inl leaf ↦
      rw leaf (record { heap = λ c p q. ground (arith, v.edges c p q); perm = Perm.refl h })
  | inr inner ↦
      let j = worse_child h i in
      let w = worse_child-IsWorseChild h i s (ground arith) in
      let above : i < length h = ground arith in
      elim (Bool-cases (less h j i)) [
        | inl go ↦
            rw (inner, go)
              (Sifted-swap i j above w.inside (
                down_loop-Sifted fuel (swap h i j) j
                  (omega (arith, length-swap h i j, w.child, w.later, f))
                  (swap-AreSmall h i j above w.inside s)
                  (swap-DownInv h i j v w (sym (less-eq-better h j i s) ∙ go))))
        | inr stop ↦
            let settled : better (item_at h i) (item_at h j) ≡ false =
              sym (less-eq-better h j i s) ∙ stop in
            rw (inner, stop)
              (record { heap = settled-IsHeap h i j v w settled; perm = Perm.refl h })
      ]
]
