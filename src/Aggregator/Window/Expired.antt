-- ===== src/Aggregator/Window/Expired.antt =====
-- expireLocked against the window: the counters after its sweep.
use wb_test_task.Base.{
  ℕ, suc, ◌+◌, ◌≤◌, ◌<◌, ◌≡◌, refl, ap, ◌∙◌, some, List, [], ◌∷◌, length, get_elem?, arith, inl,
  inr, Bool-cases, ◌||◌,
}
use wb_test_task.Base.Int.{ℤ, ◌≤ℤ◌, ltb_ℤ}
use wb_test_task.Base.Text.{Text}
use wb_test_task.Base.Word.{int64_sign}
use wb_test_task.TextMap.{TextMap, lookup, entry, count_of, HasDistinctKeys}
use wb_test_task.Aggregator.Types.{Bucket}
use wb_test_task.Aggregator.Buckets.{
  bucket_index, entries, cleared, is_nil, is_zero_second, clear_bucket_locked, expire_bucket,
  expire_buckets,
}
use wb_test_task.Aggregator.Tally.{
  count_of-entry, lookup-subtract_counts, subtract_counts-HasDistinctKeys,
}
use wb_test_task.Aggregator.Window.Since.{total-eq-since, since-le-length}
use wb_test_task.Aggregator.Window.{History, total, IsWindow}
use wb_test_task.Aggregator.Window.Expire.{
  expired_bucket-IsBucket, expired_bucket, expire_bucket-bucket, expired_bucket-cases, lookup_freed,
  swept, length-swept, get_elem?-swept, swept-get_elem?,
}

-- One round takes off the counters what it takes out of the bucket.
lookup-expire_bucket :
    (lo : ℤ) (b : Bucket) (c : TextMap ℕ) (f : Text → ℕ)
    → HasDistinctKeys (entries b.counts)
    → ((q : Text) → lookup q c ≡ entry (f q + count_of q (entries b.counts)))
    → ((q : Text) → f q + count_of q (entries b.counts) < int64_sign)
    → (q : Text)
    → lookup q (expire_bucket lo b c).1
      ≡ entry (f q + count_of q (entries (expired_bucket lo b).counts))
unfolding expire_bucket expired_bucket clear_bucket_locked
lookup-expire_bucket lo b c f d l m q =
    elim (Bool-cases (is_nil b.counts || is_zero_second b.unix_second)) [
      | inl skip ↦ rw skip (l q)
      | inr used ↦ elim (Bool-cases (ltb_ℤ b.unix_second lo)) [
        | inl old ↦
            rw (used, old)
              (lookup-subtract_counts (entries b.counts) c f d l m q
                ∙ ap entry (
                    omega (
                      arith,
                      count_of-entry q (entries (cleared b.counts)) 0 (lookup_freed b.counts q),
                    )))
        | inr new ↦ rw (used, new) (l q)
      ]
    ]

count-expired_bucket-le :
    (lo : ℤ) (b : Bucket) (q : Text)
    → count_of q (entries (expired_bucket lo b).counts) ≤ count_of q (entries b.counts)
count-expired_bucket-le lo b q = elim (expired_bucket-cases lo b) [
  | inl (e, _) ↦ rw e (omega arith)
  | inr (e, _, _) ↦
      rw e
        (omega (arith, count_of-entry q (entries (cleared b.counts)) 0 (lookup_freed b.counts q)))
]

lookup-expire_buckets :
    (lo : ℤ) (bs : List Bucket) (c : TextMap ℕ) (f : Text → ℕ)
    → ((i : ℕ) (b : Bucket) → get_elem? bs i ≡ some b → HasDistinctKeys (entries b.counts))
    → ((q : Text) → lookup q c ≡ entry (f q + total q bs))
    → ((q : Text) → f q + total q bs < int64_sign)
    → (q : Text) → lookup q (expire_buckets lo bs c).1 ≡ entry (f q + total q (swept lo bs c))
unfolding expire_buckets total
lookup-expire_buckets lo [] c f d l m q = l q
lookup-expire_buckets lo (b ∷ bs) c f d l m q =
    lookup-expire_buckets lo bs (expire_bucket lo b c).1
      (λ q. f q + count_of q (entries (expired_bucket lo b).counts)) (λ i b e. d (suc i) b e)
      (λ r.
        lookup-expire_bucket lo b c (λ t. f t + total t bs) (d 0 b refl)
          (λ t. l t ∙ ap entry (omega arith)) (λ t. omega (arith, m t)) r
        ∙ ap entry (omega arith))
      (λ r. omega (arith, m r, count-expired_bucket-le lo b r)) q
    ∙ ap entry (
        omega
          (arith, ap (λ (x : Bucket). count_of q (entries x.counts)) (expire_bucket-bucket lo b c)))

expire_bucket-HasDistinctKeys :
    (lo : ℤ) (b : Bucket) (c : TextMap ℕ)
    → HasDistinctKeys c
    → HasDistinctKeys (expire_bucket lo b c).1
unfolding expire_bucket clear_bucket_locked
expire_bucket-HasDistinctKeys lo b c d =
    elim (Bool-cases (is_nil b.counts || is_zero_second b.unix_second)) [
      | inl skip ↦ rw skip d
      | inr used ↦ elim (Bool-cases (ltb_ℤ b.unix_second lo)) [
        | inl old ↦ rw (used, old) (subtract_counts-HasDistinctKeys (entries b.counts) c d)
        | inr new ↦ rw (used, new) d
      ]
    ]

expire_buckets-HasDistinctKeys :
    (lo : ℤ) (bs : List Bucket) (c : TextMap ℕ)
    → HasDistinctKeys c
    → HasDistinctKeys (expire_buckets lo bs c).1
unfolding expire_buckets
expire_buckets-HasDistinctKeys lo [] c d = d
expire_buckets-HasDistinctKeys lo (b ∷ bs) c d =
    expire_buckets-HasDistinctKeys lo bs (expire_bucket lo b c).1
      (expire_bucket-HasDistinctKeys lo b c d)

expired_bucket-second :
    (lo s : ℤ) (b : Bucket) → b.unix_second ≡ s → lo ≤ℤ s → (expired_bucket lo b).unix_second ≡ s
expired_bucket-second lo s b e h = elim (expired_bucket-cases lo b) [
  | inl (x, _) ↦ rw x e
  | inr (_, old, _) ↦ absurd (omega (arith, rw e at old))
]

-- Moving a window on, over at most 2 ^ 63 - 1 counted events, gives the window that begins later.
pub expire_buckets-IsWindow :
    (n : ℕ) (lo lo' : ℤ) (h : History) (bs : List Bucket) (c : TextMap ℕ)
    → lo ≤ℤ lo'
    → length h < int64_sign
    → IsWindow n lo h bs c
    → IsWindow n lo' h (expire_buckets lo' bs c).0 (expire_buckets lo' bs c).1
expire_buckets-IsWindow n lo lo' h bs c forward small w = record {
  sized = length-swept lo' bs c ∙ w.sized;
  buckets_hold = λ i b' e'.
      let (b, e, x) = swept-get_elem? lo' bs c i b' e' in
      rw x at (
        expired_bucket-IsBucket n lo lo' h forward w.history_held.nonzero i b
          (w.buckets_hold i b e));
  history_held = record {
    kept = λ s q counted inside.
        let (b, e, x) = w.history_held.kept s q counted (omega arith) in
        (
          expired_bucket lo' b,
          get_elem?-swept lo' bs c (bucket_index s n) b e,
          expired_bucket-second lo' s b x inside,
        );
    nonzero = w.history_held.nonzero;
  };
  counters_hold = record {
    summed = λ q.
        lookup-expire_buckets lo' bs c (λ t. 0) (λ i b e. (w.buckets_hold i b e).distinct)
          (λ t. w.counters_hold.summed t ∙ ap entry (omega arith))
          (λ t. omega (
            arith,
            total-eq-since n lo h bs w.buckets_hold w.history_held t,
            since-le-length h lo t,
          ))
          q
        ∙ ap entry (omega arith);
    keys = expire_buckets-HasDistinctKeys lo' bs c w.counters_hold.keys;
  };
}
