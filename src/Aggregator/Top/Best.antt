-- ===== src/Aggregator/Top/Best.antt =====
-- The ranking of the counts, which is what buildTop is held against, and sortTop against it.
use mathlib.Core.List.{Perm, Permᴰ}
use mathlib.Core.Logic.{∥∥₁_elim}
use native.Mathlib.Bridge.{le_prop}
use wb_test_task.Base.{
  ℕ, zero, suc, ◌<◌, ◌≡◌, refl, ap, ◌∙◌, List, [], ◌∷◌, ◌++◌, take, if◌then◌else◌, arith, inl, inr,
  Bool-cases,
}
use wb_test_task.Base.Int.{ℤ, pos_part}
use wb_test_task.Base.Word.{int64_sign, nonpos64}
use wb_test_task.TextMap.{TextMap}
use wb_test_task.Aggregator.Top.{TopItem, item_at, insert_item, sort_top}
use wb_test_task.Aggregator.Top.Order.{IsSmall, better, is_better-eq}
use wb_test_task.Aggregator.Top.Sift.{AreSmall}
use wb_test_task.Aggregator.Top.Rank.{rank_insert, rank_insert_comm, ranking}

-- All items have counts below 2 ^ 63.
abbrev pub AllSmall : List TopItem → Type 0
AllSmall [] = Unit
AllSmall (x ∷ s) = IsSmall x × AllSmall s

AllSmall-IsProp : (s : List TopItem) → IsProp (AllSmall s)
AllSmall-IsProp [] = hlevel
AllSmall-IsProp (x ∷ s) = hlevel (AllSmall-IsProp s, le_prop)

AllSmall-permᴰ : {a b : List TopItem} → Permᴰ a b → AllSmall a → AllSmall b
AllSmall-permᴰ Permᴰ.nil v = tt
AllSmall-permᴰ (Permᴰ.cons e p) (x, v) = (rw (← e) x, AllSmall-permᴰ p v)
AllSmall-permᴰ (Permᴰ.swap e f) (x, (y, v)) = (rw (← f) y, (rw (← e) x, v))
AllSmall-permᴰ (Permᴰ.trans p q) v = AllSmall-permᴰ q (AllSmall-permᴰ p v)

pub AllSmall-perm : {a b : List TopItem} → Perm a b → AllSmall a → AllSmall b
AllSmall-perm {b = b} p v = ∥∥₁_elim p (AllSmall-IsProp b) (λ d. AllSmall-permᴰ d v)

pub AllSmall-AreSmall : (s : List TopItem) → AllSmall s → AreSmall s
unfolding item_at
AllSmall-AreSmall [] v i = omega arith
AllSmall-AreSmall (x ∷ s) (p, v) zero = p
AllSmall-AreSmall (x ∷ s) (p, v) (suc i) = AllSmall-AreSmall s v i

pub AllSmall-append :
    (s : List TopItem) (x : TopItem) → AllSmall s → IsSmall x → AllSmall (s ++ x ∷ [])
AllSmall-append [] x v p = (p, tt)
AllSmall-append (y ∷ s) x (q, v) p = (q, AllSmall-append s x v p)

AllSmall-rank_insert :
    (x : TopItem) (s : List TopItem) → IsSmall x → AllSmall s → AllSmall (rank_insert x s)
unfolding rank_insert
AllSmall-rank_insert x [] p v = (p, v)
AllSmall-rank_insert x (y ∷ s) p (q, v) = elim (Bool-cases (better x y)) [
  | inl e ↦ rw e (p, (q, v))
  | inr e ↦ rw e (q, AllSmall-rank_insert x s p v)
]

AllSmall-ranking : (s : List TopItem) → AllSmall s → AllSmall (ranking s)
unfolding ranking
AllSmall-ranking [] v = tt
AllSmall-ranking (x ∷ s) (p, v) = AllSmall-rank_insert x (ranking s) p (AllSmall-ranking s v)

-- Below 2 ^ 63 the sort of sortTop is the ranking.
insert_item-eq :
    (x : TopItem) (s : List TopItem) → IsSmall x → AllSmall s → insert_item x s ≡ rank_insert x s
unfolding insert_item rank_insert
insert_item-eq x [] p v = refl
insert_item-eq x (y ∷ s) p (q, v) = rw (is_better-eq x y p q, insert_item-eq x s p v) refl

pub sort_top-eq : (s : List TopItem) → AllSmall s → sort_top s ≡ ranking s
unfolding sort_top ranking
sort_top-eq [] v = refl
sort_top-eq (x ∷ s) (p, v) =
    rw (sort_top-eq s v) (insert_item-eq x (ranking s) p (AllSmall-ranking s v))

pub ranking-append :
    (s : List TopItem) (x : TopItem) → ranking (s ++ x ∷ []) ≡ rank_insert x (ranking s)
unfolding ranking
ranking-append [] x = refl
ranking-append (y ∷ s) x =
    ap (rank_insert y) (ranking-append s x) ∙ rank_insert_comm y x (ranking s)

-- The items of the counts that are positive.
unfoldable pub positive_items : TextMap ℕ → List TopItem
positive_items [] = []
positive_items ((query, count) ∷ counters) =
    if nonpos64 count
    then positive_items counters
    else record { query = query; count = count } ∷ positive_items counters

abbrev pub AreCounts : TextMap ℕ → Type 0
AreCounts [] = Unit
AreCounts ((query, count) ∷ counters) = (count < int64_sign) × AreCounts counters

-- The best `limit` of the counts.
abbrev pub best : TextMap ℕ → ℤ → List TopItem
best counters limit = take (pos_part limit) (ranking (positive_items counters))
