-- ===== src/Aggregator/Top/Offered.antt =====
-- buildTop against the ranking: the heap of candidates holds the best of the counts that were offered.
use mathlib.Core.List.Perm
use wb_test_task.Base.{
  ℕ, suc, ◌≤◌, ◌<◌, ◌≡◌, sym, ap, ◌∙◌, true, false, List, [], ◌∷◌, length, length-append,
  length-perm, take, set, ltb, if◌then◌else◌, arith, inl, inr, Bool-cases,
}
use wb_test_task.Base.Word.{nonpos64}
use wb_test_task.TextMap.{TextMap}
use wb_test_task.Aggregator.Top.{TopItem, item_at, is_better, heap_push, heap_fix, offer, offer_all}
use wb_test_task.Aggregator.Top.Order.{IsSmall, better, is_better-eq}
use wb_test_task.Aggregator.Top.Sift.{IsHeap}
use wb_test_task.Aggregator.Top.Pushed.{heap_push-Sifted, heap_fix-Sifted, root_worst}
use wb_test_task.Aggregator.Top.Rank.{
  rank_insert, length-rank_insert, ranking, rank_all, ranking-perm, length-ranking, take-all,
  take-rank_all, NoneWorse, NoneWorse-ranking, NoneWorse-trans, rank_insert-last, take-append,
  take-replace_last,
}
use wb_test_task.Aggregator.Top.Best.{
  AllSmall, AllSmall-perm, AllSmall-AreSmall, AllSmall-append, ranking-append, positive_items,
  AreCounts,
}

-- What the candidates are in the loop of buildTop.
pub record Candidates (limit : ℕ) (h : List TopItem) : Type 0 where
  pub bounded : length h ≤ limit
  pub heap : IsHeap h
  pub small : AllSmall h

pushed :
    (limit : ℕ) (h : List TopItem) (x : TopItem)
    → Candidates limit h
    → IsSmall x
    → length h < limit
    → Candidates limit (heap_push h x)
      × (ranking (heap_push h x) ≡ take limit (rank_insert x (ranking h)))
unfolding ranking
pushed limit h x c p room =
    let s = heap_push-Sifted h x c.heap (AllSmall-AreSmall h c.small) p in
    let same : ranking (heap_push h x) ≡ rank_insert x (ranking h) =
      ranking-perm s.perm ∙ ranking-append h x in
    let size = length-perm s.perm ∙ length-append h (x ∷ []) in
    (
      record {
        bounded = omega (arith, size);
        heap = s.heap;
        small = AllSmall-perm (Perm.symm s.perm) (AllSmall-append h x c.small p);
      },
      same
          ∙ sym (
              take-all limit (rank_insert x (ranking h))
                (omega (arith, length-rank_insert x (ranking h), length-ranking h))),
    )

none_worse :
    (r : TopItem) (s : List TopItem)
    → ((i : ℕ) → i < length s → better r (item_at s i) ≡ false)
    → NoneWorse r s
unfolding item_at
none_worse r [] f = tt
none_worse r (y ∷ s) f = (f 0 (omega arith), none_worse r s (λ i p. f (suc i) (omega arith)))

replaced :
    (limit : ℕ) (r : TopItem) (t : List TopItem) (x : TopItem)
    → Candidates limit (r ∷ t)
    → IsSmall x
    → length (r ∷ t) ≡ limit
    → better x r ≡ true
    → Candidates limit (heap_fix (x ∷ t) 0)
      × (ranking (heap_fix (x ∷ t) 0) ≡ take limit (rank_insert x (ranking (r ∷ t))))
unfolding ranking item_at
replaced limit r t x c p full b =
    let s = heap_fix-Sifted (r ∷ t) x (omega arith) c.heap (AllSmall-AreSmall (r ∷ t) c.small) p in
    let last = none_worse r t (λ i q. root_worst (r ∷ t) (suc i) c.heap (omega arith)) in
    let size = length-perm s.perm in
    (
      record {
        bounded = omega (arith, size);
        heap = s.heap;
        small = AllSmall-perm (Perm.symm s.perm) (p, c.small.1);
      },
      ranking-perm s.perm
          ∙ sym (
              ap (λ w. take limit (rank_insert x w))
                (rank_insert-last r (ranking t) (NoneWorse-ranking r t last))
              ∙ take-replace_last limit x r (ranking t) (omega (arith, length-ranking t)) b),
    )

kept :
    (limit : ℕ) (r : TopItem) (t : List TopItem) (x : TopItem)
    → IsHeap (r ∷ t)
    → length (r ∷ t) ≡ limit
    → better x r ≡ false
    → ranking (r ∷ t) ≡ take limit (rank_insert x (ranking (r ∷ t)))
unfolding item_at
kept limit r t x v full b =
    let last = none_worse r (r ∷ t) (λ i q. root_worst (r ∷ t) i v q) in
    sym (
      ap (take limit) (
        rank_insert-last x (ranking (r ∷ t))
          (NoneWorse-ranking x (r ∷ t) (NoneWorse-trans x r (r ∷ t) b last)))
      ∙ take-append limit (ranking (r ∷ t)) (x ∷ []) (length-ranking (r ∷ t) ∙ full))

-- What a round of the loop does with an item of a positive count.
abbrev place : ℕ → List TopItem → TopItem → List TopItem
place limit h x =
    if ltb (length h) limit
    then heap_push h x
    else if is_better x (item_at h 0)
    then heap_fix (set h 0 x) 0
    else h

full_place :
    (limit : ℕ) (h : List TopItem) (x : TopItem)
    → 0 < limit
    → Candidates limit h
    → IsSmall x
    → ltb (length h) limit ≡ false
    → Candidates limit (place limit h x)
      × (ranking (place limit h x) ≡ take limit (rank_insert x (ranking h)))
unfolding item_at
full_place limit [] x l c p e = absurd (ground arith)
full_place limit (r ∷ t) x l c p e =
    let size : length (r ∷ t) ≡ limit = ground (arith, c.bounded) in
    elim (Bool-cases (better x r)) [
      | inl b ↦ rw (e, is_better-eq x r p c.small.0, b) (replaced limit r t x c p size b)
      | inr b ↦ rw (e, is_better-eq x r p c.small.0, b) (c, kept limit r t x c.heap size b)
    ]

placed :
    (limit : ℕ) (h : List TopItem) (x : TopItem)
    → 0 < limit
    → Candidates limit h
    → IsSmall x
    → Candidates limit (place limit h x)
      × (ranking (place limit h x) ≡ take limit (rank_insert x (ranking h)))
placed limit h x l c p = elim (Bool-cases (ltb (length h) limit)) [
  | inl e ↦ rw e (pushed limit h x c p (ground arith))
  | inr e ↦ full_place limit h x l c p e
]

pub offered :
    (limit : ℕ) (counters : TextMap ℕ) (h : List TopItem)
    → 0 < limit
    → Candidates limit h
    → AreCounts counters
    → AllSmall (offer_all limit h counters)
      × (ranking (offer_all limit h counters)
          ≡ take limit (rank_all (positive_items counters) (ranking h)))
unfolding offer_all offer positive_items rank_all
offered limit [] h l c v =
    (c.small, sym (take-all limit (ranking h) (omega (arith, length-ranking h, c.bounded))))
offered limit ((query, count) ∷ counters) h l c (p, v) =
    let x : TopItem = record { query = query; count = count } in
    elim (Bool-cases (nonpos64 count)) [
      | inl e ↦ rw e (offered limit counters h l c v)
      | inr e ↦
          let (d, same) = placed limit h x l c p in
          let (small, rest) = offered limit counters (place limit h x) l d v in
          rw e (
            small,
            rest
                ∙ ap (λ w. take limit (rank_all (positive_items counters) w)) same
                ∙ take-rank_all limit (positive_items counters) (rank_insert x (ranking h)),
          )
    ]
