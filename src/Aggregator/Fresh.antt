-- ===== src/Aggregator/Fresh.antt =====
-- The top list against the counters, in any sequence of calls: it is out of date only while the
-- aggregator says so.
use wb_test_task.Base.{
  ℕ, ◌≡◌, refl, sym, ap, ◌∙◌, Bool, true, false, not, ◌&&◌, ◌||◌, Option, none, some, List, [], ◌∷◌,
  arith, inl, inr, ◌⊎◌, Bool-cases, subst,
}
use wb_test_task.Base.Int.{ℤ, pos, ◌≤ℤ◌, ltb_ℤ, leb_ℤ}
use wb_test_task.Base.Text.{Text}
use wb_test_task.Runtime.{Context, Result, ok, err, Time, Duration}
use wb_test_task.Unicode.{Unicode}
use wb_test_task.TextMap.{TextMap}
use wb_test_task.Aggregator.Types.{Config, Bucket, SearchEvent, InMemoryAggregator}
use wb_test_task.Aggregator.Top.{build_top}
use wb_test_task.Aggregator.Buckets.{expire_bucket, expire_buckets, is_nil, is_zero_second}
use wb_test_task.Aggregator.{
  created, new, expire_locked, add_locked, add_validated, add, rebuild_locked, rebuild_top,
  cutoff_second, bucket_second, validate_and_normalize, set_counter_metrics_locked, get_top,
  normalize_limit,
}
use wb_test_task.Aggregator.Top.Rank.{ranking}
use wb_test_task.Aggregator.Top.Best.{best, positive_items, AreCounts}
use wb_test_task.Aggregator.Top.Ranked.{build_top-eq-best}
use wb_test_task.Aggregator.Serving.{cut, cut-take, normalize_limit-max}
use wb_test_task.Aggregator.Runs.{Operation, add_event, drop_event, rebuild, perform, perform_all}

-- Nothing expires without the flag.
expire_bucket_unexpired :
    (cutoff : ℤ) (b : Bucket) (counters : TextMap ℕ)
    → (expire_bucket cutoff b counters).2 ≡ false
    → (expire_bucket cutoff b counters).1 ≡ counters
unfolding expire_bucket
expire_bucket_unexpired cutoff b counters h =
    elim (Bool-cases (is_nil b.counts || is_zero_second b.unix_second)) [
      | inl e ↦ rw e refl
      | inr e ↦ elim (Bool-cases (ltb_ℤ b.unix_second cutoff)) [
        | inl k ↦ let gone : (expire_bucket cutoff b counters).2 ≡ true = rw (e, k) refl in cc
        | inr k ↦ rw (e, k) refl
      ]
    ]

or_false : (a b : Bool) → (a || b) ≡ false → (a ≡ false) × (b ≡ false)
or_false false b h = (refl, h)
or_false true b h = cc

expire_buckets_unexpired :
    (cutoff : ℤ) (buckets : List Bucket) (counters : TextMap ℕ)
    → (expire_buckets cutoff buckets counters).2 ≡ false
    → (expire_buckets cutoff buckets counters).1 ≡ counters
unfolding expire_buckets
expire_buckets_unexpired cutoff [] counters h = refl
expire_buckets_unexpired cutoff (b ∷ buckets) counters h =
    let counters' = (expire_bucket cutoff b counters).1 in
    let (p, q) =
      or_false (expire_bucket cutoff b counters).2 (expire_buckets cutoff buckets counters').2 h in
    expire_buckets_unexpired cutoff buckets counters' q
    ∙ expire_bucket_unexpired cutoff b counters p

-- The top list is that of the counters, unless the aggregator is marked as changed.
abbrev pub IsFresh : InMemoryAggregator → Type 0
IsFresh a = (a.dirty ≡ true) ⊎ (a.top_cache ≡ build_top a.counters a.cfg.max_limit)

expire_locked_unexpired :
    (now : Time) (a : InMemoryAggregator)
    → (expire_locked a now).1 ≡ false
    → (expire_locked a now).0.counters ≡ a.counters
unfolding expire_locked
expire_locked_unexpired now a h =
    expire_buckets_unexpired (cutoff_second a now) a.buckets a.counters h

both_false : (a b : Bool) → (not a && not b) ≡ true → (a ≡ false) × (b ≡ false)
both_false true b h = cc
both_false false true h = cc
both_false false false h = (refl, refl)

unchanged-IsFresh :
    (now : Time) (a : InMemoryAggregator)
    → IsFresh a
    → (not a.dirty && not (expire_locked a now).1) ≡ true
    → a.top_cache ≡ build_top (expire_locked a now).0.counters a.cfg.max_limit
unchanged-IsFresh now a (inl d) e = let (x, _) = both_false a.dirty (expire_locked a now).1 e in cc
unchanged-IsFresh now a (inr p) e =
    let (_, x) = both_false a.dirty (expire_locked a now).1 e in
    p ∙ ap (λ counters. build_top counters a.cfg.max_limit) (sym (expire_locked_unexpired now a x))

rebuild_locked-IsFresh :
    (now : Time) (a : InMemoryAggregator)
    → IsFresh a
    → (rebuild_locked now a).top_cache
      ≡ build_top (rebuild_locked now a).counters (rebuild_locked now a).cfg.max_limit
unfolding rebuild_locked expire_locked set_counter_metrics_locked
rebuild_locked-IsFresh now a h = elim (Bool-cases (not a.dirty && not (expire_locked a now).1)) [
  | inl e ↦ rw e (unchanged-IsFresh now a h e)
  | inr e ↦ rw e refl
]

build_top_none : (limit : ℤ) → build_top [] limit ≡ []
unfolding build_top
build_top_none limit = elim (Bool-cases (leb_ℤ limit (pos 0))) [
  | inl e ↦ rw e refl
  | inr e ↦ rw e refl
]

new_empty :
    (cfg : Config) (now : Time) (a : InMemoryAggregator)
    → new cfg now ≡ created a
    → (a.top_cache ≡ []) × (a.counters ≡ [])
unfolding new
new_empty cfg now a h = ground arith

new-IsFresh :
    (cfg : Config) (now : Time) (a : InMemoryAggregator) → new cfg now ≡ created a → IsFresh a
new-IsFresh cfg now a h =
    let (p, q) = new_empty cfg now a h in
    inr (
      p
      ∙ sym (build_top_none a.cfg.max_limit)
      ∙ ap (λ counters. build_top counters a.cfg.max_limit) (sym q))

add_locked_dirty :
    (a : InMemoryAggregator) (s : ℤ) (q : Text) (now : Time) → (add_locked a s q now).dirty ≡ true
unfolding add_locked set_counter_metrics_locked
add_locked_dirty a s q now = refl

-- What GetTop answers while the list is that of the counters.
pub get_top-best :
    (limit : ℤ) (a : InMemoryAggregator)
    → a.top_cache ≡ build_top a.counters a.cfg.max_limit
    → AreCounts a.counters
    → a.cfg.default_limit ≤ℤ a.cfg.max_limit
    → get_top none limit a ≡ ok (best a.counters (normalize_limit a.cfg limit), a.top_generated_at)
unfolding get_top
get_top-best limit a fresh v w =
    let m = a.cfg.max_limit in
    let bound = normalize_limit a.cfg limit in
    ap (λ items. ok (items, a.top_generated_at))
      (ap (cut bound) (fresh ∙ build_top-eq-best a.counters m v)
        ∙ cut-take bound m (ranking (positive_items a.counters))
            (normalize_limit-max a.cfg limit w))

module _ (u : Unicode) where
  add-IsFresh :
      (ctx : Context) (event : SearchEvent) (now : Time) (a : InMemoryAggregator)
      → IsFresh a
      → IsFresh (add u ctx event now a).0
  unfolding add
  add-IsFresh (some e) event now a h = h
  add-IsFresh none event now a h = validated (validate_and_normalize u a.cfg event now)
    where
      validated : (r : Result (Option Text)) → IsFresh (add_validated a event now r).0
      validated (err e) = h
      validated (ok none) = h
      validated (ok (some query)) =
          inl (add_locked_dirty a (bucket_second a.cfg event.timestamp) query now)

  perform-IsFresh : (op : Operation) (a : InMemoryAggregator) → IsFresh a → IsFresh (perform u op a)
  unfolding perform rebuild_top
  perform-IsFresh (add_event ctx event now) a h = add-IsFresh ctx event now a h
  perform-IsFresh (drop_event why) a h = h
  perform-IsFresh (rebuild (some e) now elapsed) a h = h
  perform-IsFresh (rebuild none now elapsed) a h = inr (rebuild_locked-IsFresh now a h)

  perform_all_keeps :
      (ops : List Operation) (a : InMemoryAggregator) → IsFresh a → IsFresh (perform_all u ops a)
  unfolding perform_all
  perform_all_keeps [] a h = h
  perform_all_keeps (op ∷ ops) a h = perform_all_keeps ops (perform u op a) (perform-IsFresh op a h)

  -- After any calls of Add and RebuildTop on a new aggregator, the top list is the one that buildTop
  -- gives of the counters, unless the aggregator is marked as changed.
  pub perform_all-IsFresh :
      (ops : List Operation) (cfg : Config) (now : Time) (a : InMemoryAggregator)
      → new cfg now ≡ created a
      → IsFresh (perform_all u ops a)
  perform_all-IsFresh ops cfg now a h = perform_all_keeps ops a (new-IsFresh cfg now a h)

  rebuilt_top :
      (now : Time) (elapsed : Duration) (a : InMemoryAggregator)
      → IsFresh a
      → (perform u (rebuild none now elapsed) a).top_cache
        ≡ build_top
            (perform u (rebuild none now elapsed) a).counters
            (perform u (rebuild none now elapsed) a).cfg.max_limit
  unfolding perform rebuild_top
  rebuilt_top now elapsed a h = rebuild_locked-IsFresh now a h

  -- After any calls of Add and RebuildTop on a new aggregator of which the last one is a RebuildTop
  -- whose context is not done, with counts below 2 ^ 63 then and a default limit that is not above the
  -- maximum, GetTop answers, for the limit that it makes of the requested one, with the best of the
  -- counters as RebuildTop has left them, and with the time of its list.
  pub get_top-perform_all :
      (ops : List Operation) (cfg : Config) (start now : Time) (elapsed : Duration) (limit : ℤ)
      (a b : InMemoryAggregator)
      → new cfg start ≡ created a
      → perform u (rebuild none now elapsed) (perform_all u ops a) ≡ b
      → AreCounts b.counters
      → b.cfg.default_limit ≤ℤ b.cfg.max_limit
      → get_top none limit b
        ≡ ok (best b.counters (normalize_limit b.cfg limit), b.top_generated_at)
  get_top-perform_all ops cfg start now elapsed limit a b e p v w =
      let q =
        rebuilt_top now elapsed (perform_all u ops a) (perform_all-IsFresh ops cfg start a e) in
      get_top-best limit b (subst (λ x. x.top_cache ≡ build_top x.counters x.cfg.max_limit) p q) v w
