-- ===== src/Aggregator/Top/Ranked.antt =====
-- buildTop: its list is the best of the counts, in order, whatever the order in which Go's map gives
-- them.
use mathlib.Core.List.{Perm, Permᴰ}
use mathlib.Core.Logic.{∥∥₁_elim}
use wb_test_task.Base.{
  ℕ, zero, suc, min, ◌<◌, ◌≡◌, refl, sym, ap, ◌∙◌, true, false, ◌||◌, List, [], ◌∷◌, length,
  length-take, take, ◌==◌, arith, inl, inr, Bool-cases,
}
use wb_test_task.Base.Int.{ℤ, pos, negsuc, pos_part, leb_ℤ}
use wb_test_task.Base.Text.{Text}
use wb_test_task.TextMap.{TextMap}
use wb_test_task.Aggregator.Top.{TopItem, sort_top, offer_all, build_top}
use wb_test_task.Aggregator.Top.Order.{better, better_trans, better_asym}
use wb_test_task.Aggregator.Top.Rank.{
  items_set, rank_insert, rank_insert_comm, ranking, rank_all-nil, length-ranking,
}
use wb_test_task.Aggregator.Top.Best.{positive_items, AreCounts, sort_top-eq, best}
use wb_test_task.Aggregator.Top.Offered.{Candidates, offered}

no-Candidates : (limit : ℕ) → Candidates limit []
no-Candidates limit = record {
  bounded = omega arith;
  heap = λ c p q. absurd (omega arith);
  small = tt;
}

ranking-nil : ranking [] ≡ []
unfolding ranking
ranking-nil = refl

sorted_offers :
    (limit : ℕ) (counters : TextMap ℕ)
    → 0 < limit
    → AreCounts counters
    → sort_top (offer_all limit [] counters) ≡ take limit (ranking (positive_items counters))
sorted_offers limit counters l v =
    let (small, e) = offered limit counters [] l (no-Candidates limit) v in
    sort_top-eq (offer_all limit [] counters) small
    ∙ e
    ∙ ap (take limit) (rw (ranking-nil) (rank_all-nil (positive_items counters)))

-- For counts below 2 ^ 63, buildTop gives the positive counts sorted by count, the larger first, and
-- equal counts by query, cut after the first `limit`, and nothing for a limit that is not positive.
pub build_top-eq-best :
    (counters : TextMap ℕ) (limit : ℤ)
    → AreCounts counters
    → build_top counters limit ≡ best counters limit
unfolding build_top positive_items ranking
build_top-eq-best counters (negsuc n) v = ground arith
build_top-eq-best counters (pos zero) v = ground arith
build_top-eq-best [] (pos (suc n)) v = ground arith
build_top-eq-best (e ∷ counters) (pos (suc n)) v =
    let go : (leb_ℤ (pos (suc n)) (pos 0) || length (e ∷ counters) == 0) ≡ false = ground arith in
    rw go (sorted_offers (suc n) (e ∷ counters) (omega arith) v)

-- No item of the list is better than an earlier one.
abbrev NoneBetter : TopItem → List TopItem → Type 0
NoneBetter x [] = Unit
NoneBetter x (y ∷ s) = (better y x ≡ false) × NoneBetter x s

abbrev pub IsRanked : List TopItem → Type 0
IsRanked [] = Unit
IsRanked (x ∷ s) = NoneBetter x s × IsRanked s

NoneBetter-rank_insert :
    (x y : TopItem) (s : List TopItem)
    → better y x ≡ false
    → NoneBetter x s
    → NoneBetter x (rank_insert y s)
unfolding rank_insert
NoneBetter-rank_insert x y [] p v = (p, tt)
NoneBetter-rank_insert x y (z ∷ s) p (q, v) = elim (Bool-cases (better y z)) [
  | inl e ↦ rw e (p, (q, v))
  | inr e ↦ rw e (q, NoneBetter-rank_insert x y s p v)
]

NoneBetter-trans :
    (x y : TopItem) (s : List TopItem) → better x y ≡ true → NoneBetter y s → NoneBetter x s
NoneBetter-trans x y [] p v = tt
NoneBetter-trans x y (z ∷ s) p (q, v) =
    (ground (arith, better_trans z x y), NoneBetter-trans x y s p v)

IsRanked-rank_insert : (x : TopItem) (s : List TopItem) → IsRanked s → IsRanked (rank_insert x s)
unfolding rank_insert
IsRanked-rank_insert x [] v = (tt, tt)
IsRanked-rank_insert x (y ∷ s) (p, v) = elim (Bool-cases (better x y)) [
  | inl e ↦ rw e ((better_asym x y e, NoneBetter-trans x y s e p), (p, v))
  | inr e ↦ rw e (NoneBetter-rank_insert y x s e p, IsRanked-rank_insert x s v)
]

ranking-IsRanked : (s : List TopItem) → IsRanked (ranking s)
unfolding ranking
ranking-IsRanked [] = tt
ranking-IsRanked (x ∷ s) = IsRanked-rank_insert x (ranking s) (ranking-IsRanked s)

NoneBetter-take :
    (n : ℕ) (x : TopItem) (s : List TopItem) → NoneBetter x s → NoneBetter x (take n s)
NoneBetter-take zero x s v = tt
NoneBetter-take (suc n) x [] v = tt
NoneBetter-take (suc n) x (y ∷ s) (p, v) = (p, NoneBetter-take n x s v)

IsRanked-take : (n : ℕ) (s : List TopItem) → IsRanked s → IsRanked (take n s)
IsRanked-take zero s v = tt
IsRanked-take (suc n) [] v = tt
IsRanked-take (suc n) (x ∷ s) (p, v) = (NoneBetter-take n x s p, IsRanked-take n s v)

-- For counts below 2 ^ 63, buildTop puts no item behind a worse one, and its list is as long as there
-- are positive counts, or `limit` if that is less.
pub build_top-IsRanked :
    (counters : TextMap ℕ) (limit : ℤ)
    → AreCounts counters
    → IsRanked (build_top counters limit)
      × (length (build_top counters limit)
          ≡ min (pos_part limit) (length (positive_items counters)))
build_top-IsRanked counters limit v = rw (build_top-eq-best counters limit v) (
  IsRanked-take (pos_part limit) _ (ranking-IsRanked (positive_items counters)),
  length-take (pos_part limit) (ranking (positive_items counters))
      ∙ ap (min (pos_part limit)) (length-ranking (positive_items counters)),
)

abbrev ranked_counts : TextMap ℕ → List TopItem
ranked_counts counters = ranking (positive_items counters)

swapped_counts :
    (q r : Text) (c d : ℕ) (m : TextMap ℕ)
    → ranked_counts ((q, c) ∷ (r, d) ∷ m) ≡ ranked_counts ((r, d) ∷ (q, c) ∷ m)
unfolding positive_items ranking
swapped_counts q r c d m =
    let x : TopItem = record { query = q; count = c } in
    let y : TopItem = record { query = r; count = d } in
    ground (arith, rank_insert_comm x y (ranked_counts m))

cons_counts :
    (q : Text) (c : ℕ) (m n : TextMap ℕ)
    → ranked_counts m ≡ ranked_counts n
    → ranked_counts ((q, c) ∷ m) ≡ ranked_counts ((q, c) ∷ n)
unfolding positive_items ranking
cons_counts q c m n e = ground (arith, e)

ranked_counts-permᴰ : {m n : TextMap ℕ} → Permᴰ m n → ranked_counts m ≡ ranked_counts n
ranked_counts-permᴰ Permᴰ.nil = refl
ranked_counts-permᴰ (Permᴰ.cons {a = (q, c)} {l₁ = m} {l₂ = n} e p) =
    cons_counts q c m n (ranked_counts-permᴰ p) ∙ ap (λ w. ranked_counts (w ∷ n)) e
ranked_counts-permᴰ (Permᴰ.swap {a = (q, c)} {b = (r, d)} {a' = a} {l = m} e f) =
    swapped_counts q r c d m
    ∙ ap (λ w. ranked_counts (w ∷ (q, c) ∷ m)) f
    ∙ ap (λ w. ranked_counts (a ∷ w ∷ m)) e
ranked_counts-permᴰ (Permᴰ.trans p q) = ranked_counts-permᴰ p ∙ ranked_counts-permᴰ q

-- The list that buildTop gives does not depend on the order in which the map is ranged over, for
-- counts below 2 ^ 63.
pub build_top-perm :
    (m n : TextMap ℕ) (limit : ℤ)
    → Perm m n
    → AreCounts m
    → AreCounts n
    → build_top m limit ≡ build_top n limit
build_top-perm m n limit p v w =
    build_top-eq-best m limit v
    ∙ ap (take (pos_part limit)) (∥∥₁_elim p (items_set _ _) ranked_counts-permᴰ)
    ∙ sym (build_top-eq-best n limit w)
