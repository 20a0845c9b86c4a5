-- ===== src/Aggregator/Top/Pushed.antt =====
-- container/heap: Push, and Fix at the root, keep the order of the heap, whose root is an item that is
-- better than no other.
use mathlib.Core.List.{Perm}
use wb_test_task.Base.{
  ℕ, zero, suc, ◌+◌, ◌-◌, ◌<◌, ◌≡◌, refl, ◌∙◌, false, List, [], ◌∷◌, ◌++◌, length, length-append,
  length-set, set, ltb, arith, inl, inr, Bool-cases,
}
use wb_test_task.Aggregator.Top.{TopItem, item_at, up_loop, down_loop, heap_push, heap_fix}
use wb_test_task.Aggregator.Top.Order.{IsSmall, better, better_irrefl, worse_trans}
use wb_test_task.Aggregator.Top.Slice.{item_at-set, item_at-append}
use wb_test_task.Aggregator.Top.Sift.{parent, AreSmall, IsHeap, Sifted, UpInv, up_loop-Sifted}
use wb_test_task.Aggregator.Top.SiftDown.{DownInv, down_loop-Sifted}

AreSmall-append : (h : List TopItem) (x : TopItem) → AreSmall h → IsSmall x → AreSmall (h ++ x ∷ [])
unfolding item_at
AreSmall-append [] x s t zero = t
AreSmall-append [] x s t (suc i) = omega arith
AreSmall-append (y ∷ h) x s t zero = s 0
AreSmall-append (y ∷ h) x s t (suc i) = AreSmall-append h x (λ c. s (suc c)) t i

appended-UpInv : (h : List TopItem) (x : TopItem) → IsHeap h → UpInv (h ++ x ∷ []) (length h)
appended-UpInv h x v = record {
  inside = omega (arith, length-append h (x ∷ []));
  edges = λ c p q r. ground (
    arith,
    v c,
    length-append h (x ∷ []),
    item_at-append h (x ∷ []) c,
    item_at-append h (x ∷ []) (parent c),
  );
  bridged = λ c p q r. absurd (omega (arith, length-append h (x ∷ [])));
}

-- heap.Push makes a heap of the items and the new one.
pub heap_push-Sifted :
    (h : List TopItem) (x : TopItem)
    → IsHeap h
    → AreSmall h
    → IsSmall x
    → Sifted (h ++ x ∷ []) (heap_push h x)
unfolding heap_push
heap_push-Sifted h x v s t =
    let size : length (h ++ x ∷ []) ≡ length h + 1 = length-append h (x ∷ []) ∙ omega arith in
    let last : length (h ++ x ∷ []) - 1 ≡ length h = omega (arith, size) in
    rw last (
      up_loop-Sifted (length (h ++ x ∷ [])) (h ++ x ∷ []) (length h) (omega (arith, size))
        (AreSmall-append h x s t) (appended-UpInv h x v))

AreSmall-set :
    (h : List TopItem) (i : ℕ) (x : TopItem)
    → i < length h
    → AreSmall h
    → IsSmall x
    → AreSmall (set h i x)
AreSmall-set h i x p s t c = ground (arith, item_at-set h i c x p, s c)

new_root-DownInv :
    (h : List TopItem) (x : TopItem) → 0 < length h → IsHeap h → DownInv (set h 0 x) 0
new_root-DownInv h x p v = record {
  edges = λ c q r o.
      ground (arith, v c, length-set h 0 x, item_at-set h 0 c x p, item_at-set h 0 (parent c) x p);
  bridged = λ c q. absurd (omega arith);
}

up_loop_root : (h : List TopItem) → up_loop (0 + 1) h 0 ≡ h
unfolding up_loop
up_loop_root h = refl

heap_fix_root : (h : List TopItem) → heap_fix h 0 ≡ (down_loop (length h + 1) h 0).0
unfolding heap_fix
heap_fix_root h = elim (Bool-cases (ltb 0 (down_loop (length h + 1) h 0).1)) [
  | inl e ↦ rw e refl
  | inr e ↦
      let root : (down_loop (length h + 1) h 0).1 ≡ 0 = ground arith in
      rw root (up_loop_root (down_loop (length h + 1) h 0).0)
]

-- heap.Fix after a write to the root makes a heap of the items.
pub heap_fix-Sifted :
    (h : List TopItem) (x : TopItem)
    → 0 < length h
    → IsHeap h
    → AreSmall h
    → IsSmall x
    → Sifted (set h 0 x) (heap_fix (set h 0 x) 0)
heap_fix-Sifted h x p v s t = rw (heap_fix_root (set h 0 x)) (
    down_loop-Sifted (length (set h 0 x) + 1) (set h 0 x) 0 (omega arith) (AreSmall-set h 0 x p s t)
      (new_root-DownInv h x p v))

root_below :
    (k : ℕ) (h : List TopItem) (i : ℕ)
    → i < k
    → IsHeap h
    → i < length h
    → better (item_at h 0) (item_at h i) ≡ false
root_below zero h i f v p = absurd (omega arith)
root_below (suc k) h zero f v p = better_irrefl (item_at h 0)
root_below (suc k) h (suc i) f v p =
    worse_trans (item_at h 0) (item_at h (parent (suc i))) (item_at h (suc i))
      (root_below k h (parent (suc i)) (omega arith) v (omega arith)) (v (suc i) (omega arith) p)

-- The root is better than no item.
pub root_worst :
    (h : List TopItem) (i : ℕ)
    → IsHeap h
    → i < length h
    → better (item_at h 0) (item_at h i) ≡ false
root_worst h i v p = root_below (suc i) h i (omega arith) v p

-- heap.Push of an item to a heap, for counts that are no negative int64, gives a heap of the items and
-- the new one, in which no parent is better than its child, and whose root is better than no item.
pub heap_push-IsHeap :
    (h : List TopItem) (x : TopItem)
    → IsHeap h
    → AreSmall h
    → IsSmall x
    → IsHeap (heap_push h x)
      × Perm (heap_push h x) (h ++ x ∷ [])
      × ((i : ℕ)
          → i < length (heap_push h x)
          → better (item_at (heap_push h x) 0) (item_at (heap_push h x) i) ≡ false)
heap_push-IsHeap h x v s t =
    let r = heap_push-Sifted h x v s t in
    (r.heap, r.perm, λ i p. root_worst (heap_push h x) i r.heap p)
