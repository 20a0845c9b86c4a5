-- ===== src/Aggregator/Top/Slice.antt =====
-- Reading, writing and swapping the items of a slice.
use mathlib.Core.List.{Perm}
use mathlib.Core.List.Perm
use wb_test_task.Base.{
  ℕ, zero, suc, ◌<◌, ◌≡◌, refl, List, [], ◌∷◌, ◌++◌, length, set, length-set, ◌==◌, if◌then◌else◌,
  arith,
}
use wb_test_task.Aggregator.Top.{TopItem, item_at, swap}

pub item_at-set :
    (h : List TopItem) (i c : ℕ) (v : TopItem)
    → i < length h
    → item_at (set h i v) c ≡ (if i == c then v else item_at h c)
unfolding item_at
item_at-set [] i c v p = absurd (omega arith)
item_at-set (x ∷ h) zero zero v p = refl
item_at-set (x ∷ h) zero (suc c) v p = ground arith
item_at-set (x ∷ h) (suc i) zero v p = ground arith
item_at-set (x ∷ h) (suc i) (suc c) v p = ground (arith, item_at-set h i c v)

-- The item that a write replaces, with the new slice, is the new item with the old slice.
replaced-perm :
    (h : List TopItem) (i : ℕ) (v : TopItem) → i < length h → Perm (item_at h i ∷ set h i v) (v ∷ h)
unfolding item_at
replaced-perm [] i v p = absurd (omega arith)
replaced-perm (x ∷ h) zero v p = Perm.swap v x h
replaced-perm (x ∷ h) (suc i) v p =
    Perm.trans (Perm.swap x (item_at h i) (set h i v))
      (Perm.trans (Perm.cons x (replaced-perm h i v (omega arith))) (Perm.swap v x h))

pub length-swap : (h : List TopItem) (i j : ℕ) → length (swap h i j) ≡ length h
unfolding swap
length-swap h i j = simp length-set

module _ (h : List TopItem) (i j : ℕ) (pi : i < length h) (pj : j < length h) where
  pub item_at-swap :
      (c : ℕ)
      → item_at (swap h i j) c
        ≡ (if j == c then item_at h i else if i == c then item_at h j else item_at h c)
  unfolding swap
  item_at-swap c = rw (
    item_at-set (set h i (item_at h j)) j c (item_at h i) (rw length-set pj),
    item_at-set h i c (item_at h j) pi,
  )

  pub swap-perm : Perm (swap h i j) h
  unfolding swap
  swap-perm =
      let first = set h i (item_at h j) in
      let read : item_at first j ≡ item_at h j = ground (arith, item_at-set h i j (item_at h j)) in
      let second = replaced-perm first j (item_at h i) (rw length-set pj) in
      Perm.cons_inv (Perm.trans (rw read at second) (replaced-perm h i (item_at h j) pi))

pub item_at-append : (h t : List TopItem) (i : ℕ) → i < length h → item_at (h ++ t) i ≡ item_at h i
unfolding item_at
item_at-append [] t i p = absurd (omega arith)
item_at-append (x ∷ h) t zero p = refl
item_at-append (x ∷ h) t (suc i) p = item_at-append h t i (omega arith)

pub item_at-append_last : (h : List TopItem) (x : TopItem) → item_at (h ++ x ∷ []) (length h) ≡ x
unfolding item_at
item_at-append_last [] x = refl
item_at-append_last (y ∷ h) x = item_at-append_last h x
