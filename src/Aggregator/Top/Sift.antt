-- ===== src/Aggregator/Top/Sift.antt =====
-- container/heap: the order of a heap, and that the loop of `up` restores it.
use mathlib.Core.List.{Perm}
use mathlib.Core.List.Perm
use wb_test_task.Base.{
  ℕ, zero, suc, ◌-◌, ◌/◌, ◌<◌, ◌≡◌, ◌≢◌, true, false, not, ◌||◌, List, length, ◌==◌, arith, inl,
  inr, Bool-cases,
}
use wb_test_task.Base.Word.{less64_pos}
use wb_test_task.Aggregator.Top.{TopItem, item_at, less, swap, up_loop}
use wb_test_task.Aggregator.Top.Order.{IsSmall, better, better_asym, worse_trans}
use wb_test_task.Aggregator.Top.Slice.{item_at-swap, length-swap, swap-perm}

abbrev pub parent : ℕ → ℕ
parent c = (c - 1) / 2

abbrev pub AreSmall : List TopItem → Type 0
AreSmall h = (i : ℕ) → IsSmall (item_at h i)

-- No parent is better than its child.
abbrev pub IsHeap : List TopItem → Type 0
IsHeap h = (c : ℕ) → 0 < c → c < length h → better (item_at h (parent c)) (item_at h c) ≡ false

-- The result of a loop: a heap of the same items.
pub record Sifted (h r : List TopItem) : Type 0 where
  pub heap : IsHeap r
  pub perm : Perm r h

pub less-eq-better :
    (h : List TopItem) (i j : ℕ) → AreSmall h → less h i j ≡ better (item_at h j) (item_at h i)
unfolding less better
less-eq-better h i j s =
    ground (arith, less64_pos (item_at h i).count (item_at h j).count (s i) (s j))

pub swap-AreSmall :
    (h : List TopItem) (i j : ℕ) → i < length h → j < length h → AreSmall h → AreSmall (swap h i j)
swap-AreSmall h i j p q s c = ground (arith, item_at-swap h i j p q c, s i, s j, s c)

-- Only the edge above j may be out of order.
pub record UpInv (h : List TopItem) (j : ℕ) : Type 0 where
  pub inside : j < length h
  pub edges :
      (c : ℕ) → 0 < c → c < length h → c ≢ j → better (item_at h (parent c)) (item_at h c) ≡ false
  pub bridged :
      (c : ℕ)
      → 0 < j
      → parent c ≡ j
      → c < length h
      → better (item_at h (parent j)) (item_at h c) ≡ false

swap-UpInv :
    (h : List TopItem) (j : ℕ)
    → UpInv h j
    → 0 < j
    → better (item_at h (parent j)) (item_at h j) ≡ true
    → UpInv (swap h (parent j) j) (parent j)
swap-UpInv h j v pos worse =
    let above : parent j < length h = omega (arith, v.inside) in
    let at = item_at-swap h (parent j) j above v.inside in
    let asym = better_asym (item_at h (parent j)) (item_at h j) worse in
    record {
      inside = omega (arith, above, length-swap h (parent j) j);
      edges = λ c p q r. ground (
        arith,
        at c,
        at (parent c),
        v.edges c,
        v.bridged c,
        asym,
        length-swap h (parent j) j,
        worse_trans (item_at h j) (item_at h (parent j)) (item_at h c),
      );
      bridged = λ c p q r. ground (
        arith,
        at c,
        at (parent (parent j)),
        v.edges c,
        v.edges (parent j),
        length-swap h (parent j) j,
        worse_trans (item_at h (parent (parent j))) (item_at h (parent j)) (item_at h c),
      );
    }

pub Sifted-swap :
    {h r : List TopItem} (i j : ℕ)
    → i < length h
    → j < length h
    → Sifted (swap h i j) r
    → Sifted h r
Sifted-swap {h} i j p q s = record { heap = s.heap; perm = Perm.trans s.perm (swap-perm h i j p q) }

pub up_loop-Sifted :
    (fuel : ℕ) (h : List TopItem) (j : ℕ)
    → j < fuel
    → AreSmall h
    → UpInv h j
    → Sifted h (up_loop fuel h j)
unfolding up_loop
up_loop-Sifted zero h j f s v = absurd (omega arith)
up_loop-Sifted (suc fuel) h j f s v =
    elim (Bool-cases (parent j == j || not (less h j (parent j)))) [
      | inl stop ↦ rw stop (record {
        heap = λ c p q. ground (arith, v.edges c p q, stop, less-eq-better h j (parent j) s);
        perm = Perm.refl h;
      })
      | inr go ↦
          let above : parent j < length h = omega (arith, v.inside) in
          rw go (
            Sifted-swap (parent j) j above v.inside (
              up_loop-Sifted fuel (swap h (parent j) j) (parent j) (ground arith)
                (swap-AreSmall h (parent j) j above v.inside s)
                (swap-UpInv h j v (ground arith)
                  (ground (arith, less-eq-better h j (parent j) s)))))
    ]
