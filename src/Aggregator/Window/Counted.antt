-- ===== src/Aggregator/Window/Counted.antt =====
-- Add keeps the window when it counts an event.
use mathlib.Core.Option.{some-injective}
use wb_test_task.Base.{
  ℕ, ◌+◌, ◌<◌, ◌≡◌, ◌≢◌, refl, sym, ap, ◌∙◌, some, List, [], ◌∷◌, length, get_elem?, set,
  length-set, get_elem?-set_self, get_elem?-set_ne, get_elem?-some, subst, arith, inl, inr, ◌⊎◌,
  ℕ_discrete,
}
use wb_test_task.Base.Int.{ℤ, pos, ◌+ℤ◌, ◌≤ℤ◌, ◌<ℤ◌, ℤ_discrete, int_laws}
use wb_test_task.Base.Text.{Text, text_discrete}
use wb_test_task.Base.Word.{int64_sign}
use wb_test_task.TextMap.{TextMap, lookup, entry, count_of, HasDistinctKeys, insert-HasDistinctKeys}
use wb_test_task.Aggregator.Types.{Bucket}
use wb_test_task.Aggregator.Buckets.{bucket_index, entries, increment, count_in_bucket, count_event}
use wb_test_task.Aggregator.Ring.{bucket_index-lt, bucket_index_window}
use wb_test_task.Aggregator.Tally.{count_of-entry}
use wb_test_task.Aggregator.Window.Since.{total-eq-since, since-le-length, occurrences-le-length}
use wb_test_task.Aggregator.Window.{
  History, one_if, occurrences, total, IsBucket, AreBuckets, IsKept, IsWindow,
}
use wb_test_task.Aggregator.Window.Count.{
  count_event-eq, ≤ℤ-or-le, empty_of_none, counted_bucket, count_in_bucket_own,
  count_in_bucket_free, free_of, lookup_nil, occurrences-cons_self, occurrences-cons_ne, total-set,
  entry_incremented,
}

module _ (n : ℕ) (lo : ℤ) (h : History) (bs : List Bucket) (c : TextMap ℕ)
    (w : IsWindow n lo h bs c) (s : ℤ) (nz : s ≢ pos 0) (first : lo ≤ℤ s)
    (last : s <ℤ lo +ℤ pos n) where
  -- The bucket at the index of the second is of this second or free.
  own_or_free :
      (b : Bucket)
      → get_elem? bs (bucket_index s n) ≡ some b
      → (b.unix_second ≡ s) ⊎ (b.unix_second ≡ pos 0)
  own_or_free b e = elim (ℤ_discrete b.unix_second (pos 0)) [
    | yes free ↦ inr free
    | no used ↦
        let v = w.buckets_hold (bucket_index s n) b e in
        elim (≤ℤ-or-le b.unix_second s) [
          | inl p ↦ inl (
              bucket_index_window b.unix_second s n (v.placed used) p
                (omega (int_laws, v.after used)))
          | inr p ↦ inl (
              sym (
                bucket_index_window s b.unix_second n (sym (v.placed used)) p
                  (omega (int_laws, v.before used))))
        ]
  ]

  -- What the bucket of the second counts before the event.
  record Claimed (q : Text) (b : Bucket) : Type 0 where
    base : TextMap ℕ
    written : count_in_bucket s q b c ≡ (counted_bucket s q base, increment q c)
    counted : (r : Text) → lookup r base ≡ entry (occurrences h s r)
    before : (r : Text) → count_of r (entries b.counts) ≡ occurrences h s r
    distinct : HasDistinctKeys base

  occurrences_unheld :
      (b : Bucket)
      → get_elem? bs (bucket_index s n) ≡ some b
      → b.unix_second ≢ s
      → (r : Text) → occurrences h s r ≡ 0
  occurrences_unheld b e other r = elim (ℕ_discrete (occurrences h s r) 0) [
    | yes z ↦ z
    | no some_left ↦
        let (d, f, same) = w.history_held.kept s r (omega arith) first in
        absurd (other (ap (λ (x : Bucket). x.unix_second) (some-injective _ _ (sym e ∙ f)) ∙ same))
  ]

  claimed : (q : Text) (b : Bucket) → get_elem? bs (bucket_index s n) ≡ some b → Claimed q b
  claimed q b e = elim (ℤ_discrete b.unix_second s) [
    | yes own ↦
        let v = w.buckets_hold (bucket_index s n) b e in
        record {
          base = entries b.counts;
          written = count_in_bucket_own s q b c own;
          counted = λ r. v.counted r ∙ ap (λ t. entry (occurrences h t r)) own;
          before = λ r.
              count_of-entry r (entries b.counts) (occurrences h s r)
                (v.counted r ∙ ap (λ t. entry (occurrences h t r)) own);
          distinct = v.distinct;
        }
    | no other ↦
        let v = w.buckets_hold (bucket_index s n) b e in
        let free = free_of (own_or_free b e) other in
        let empty = empty_of_none (entries b.counts) (λ r.
          v.counted r
          ∙ ap (λ t. entry (occurrences h t r)) free
          ∙ ap entry (w.history_held.nonzero r)) in
        record {
          base = [];
          written = count_in_bucket_free s q b c other empty;
          counted = λ r. lookup_nil r ∙ ap entry (sym (occurrences_unheld b e other r));
          before = λ r.
              count_of-entry r (entries b.counts) (occurrences h s r)
                (rw (empty, occurrences_unheld b e other r) (lookup_nil r));
          distinct = tt;
        }
  ]

  module _ (small : length h + 1 < int64_sign) (q : Text) (b : Bucket)
      (at : get_elem? bs (bucket_index s n) ≡ some b) where
    -- Another second of the window does not stand at this index.
    apart :
        (t : ℤ) (r : Text) (d : Bucket)
        → t ≢ s
        → 0 < occurrences h t r
        → get_elem? bs (bucket_index t n) ≡ some d
        → d.unix_second ≡ t
        → bucket_index s n ≢ bucket_index t n
    apart t r d other p e x same = elim (own_or_free d (ap (get_elem? bs) same ∙ e)) [
      | inl own ↦ other (sym x ∙ own)
      | inr free ↦
          omega (arith, w.history_held.nonzero r, ap (λ y. occurrences h y r) (sym x ∙ free))
    ]

    after_bucket : Bucket
    after_bucket = counted_bucket s q (claimed q b at).base

    inside : bucket_index s n < length bs
    inside = omega (int_laws, w.sized, bucket_index-lt s n (omega int_laws))

    after_bucket-IsBucket : IsBucket n lo ((s, q) ∷ h) (bucket_index s n) after_bucket
    unfolding after_bucket increment
    after_bucket-IsBucket = record {
      counted = λ r.
          entry_incremented q r (claimed q b at).base (occurrences h s) (claimed q b at).counted
            (omega (arith, occurrences-le-length h s q))
          ∙ ap entry (sym (occurrences-cons_self s q r h));
      distinct = insert-HasDistinctKeys q _ (claimed q b at).base (claimed q b at).distinct;
      fresh = λ e. cc;
      placed = λ _. refl;
      after = λ _. first;
      before = λ _. last;
    }

    other_bucket-IsBucket :
        (i : ℕ) (d : Bucket)
        → bucket_index s n ≢ i
        → IsBucket n lo h i d
        → IsBucket n lo ((s, q) ∷ h) i d
    other_bucket-IsBucket i d ne v = record {
      counted = λ r. v.counted r ∙ ap entry (sym (occurrences-cons_ne s d.unix_second q r h other));
      distinct = v.distinct;
      fresh = v.fresh;
      placed = v.placed;
      after = v.after;
      before = v.before;
    }
      where
        other : d.unix_second ≢ s
        other e = ne (ap (λ t. bucket_index t n) (sym e) ∙ v.placed (λ z. nz (sym e ∙ z)))

    counted_buckets : AreBuckets n lo ((s, q) ∷ h) (set bs (bucket_index s n) after_bucket)
    counted_buckets i d e = elim (ℕ_discrete (bucket_index s n) i) [
      | yes here ↦
          let same : after_bucket ≡ d = some-injective _ _ (
            sym (get_elem?-set_self bs (bucket_index s n) after_bucket inside)
            ∙ ap (get_elem? (set bs (bucket_index s n) after_bucket)) here
            ∙ e) in
          subst (λ j. IsBucket n lo ((s, q) ∷ h) j d) here
            (subst (IsBucket n lo ((s, q) ∷ h) (bucket_index s n)) same after_bucket-IsBucket)
      | no there ↦
          other_bucket-IsBucket i d there
            (w.buckets_hold i d (sym (get_elem?-set_ne bs after_bucket there) ∙ e))
    ]

    -- The bucket of an event that was counted before, or of the new one.
    counted_kept :
        (t : ℤ) (r : Text)
        → 0 < occurrences ((s, q) ∷ h) t r
        → lo ≤ℤ t
        → (d : Bucket) × (get_elem? (set bs (bucket_index s n) after_bucket) (bucket_index t n)
            ≡ some d)
          × (d.unix_second ≡ t)
    unfolding after_bucket
    counted_kept t r p f = elim (ℤ_discrete t s) [
      | yes now ↦ (
        after_bucket,
        ap (λ x. get_elem? (set bs (bucket_index s n) after_bucket) (bucket_index x n)) now
            ∙ get_elem?-set_self bs (bucket_index s n) after_bucket inside,
        sym now,
      )
      | no then_ ↦
          let old : 0 < occurrences h t r = omega (arith, occurrences-cons_ne s t q r h then_) in
          let (d, e, x) = w.history_held.kept t r old f in
          (d, get_elem?-set_ne bs after_bucket (apart t r d then_ old e x) ∙ e, x)
    ]

    counted_IsKept : IsKept n lo ((s, q) ∷ h) (set bs (bucket_index s n) after_bucket)
    counted_IsKept = record {
      kept = counted_kept;
      nonzero =
          λ r. occurrences-cons_ne s (pos 0) q r h (λ z. nz (sym z)) ∙ w.history_held.nonzero r;
    }

    counted_sum :
        (r : Text)
        → total r (set bs (bucket_index s n) after_bucket) ≡ one_if (text_discrete q r) + total r bs
    unfolding after_bucket
    counted_sum r = omega (
      arith,
      total-set r bs (bucket_index s n) b after_bucket at,
      (claimed q b at).before r,
      count_of-entry r (entries after_bucket.counts)
          (one_if (text_discrete q r) + occurrences h s r)
          (entry_incremented q r (claimed q b at).base (occurrences h s) (claimed q b at).counted
            (omega (arith, occurrences-le-length h s q))),
    )

    -- An event of the window is counted, and the window keeps what it held.
    counted-IsWindow :
        IsWindow n lo
          ((s, q) ∷ h)
          (count_event s q (bucket_index s n) bs c).0
          (count_event s q (bucket_index s n) bs c).1
    unfolding increment
    counted-IsWindow =
        rw (count_event-eq s q (bucket_index s n) bs c b at, (claimed q b at).written)
          (unfold after_bucket in
            record {
              sized = length-set bs (bucket_index s n) after_bucket ∙ w.sized;
              buckets_hold = counted_buckets;
              history_held = counted_IsKept;
              counters_hold = record {
                summed = λ r.
                    entry_incremented q r c (λ t. total t bs) w.counters_hold.summed
                      (omega (
                        arith,
                        total-eq-since n lo h bs w.buckets_hold w.history_held q,
                        since-le-length h lo q,
                      ))
                    ∙ ap entry (sym (counted_sum r));
                keys = insert-HasDistinctKeys q _ c w.counters_hold.keys;
              };
            })

-- Counting an event of the window, over at most 2 ^ 63 - 1 events, adds it to what is held.
pub count_event-IsWindow :
    (n : ℕ) (lo : ℤ) (h : History) (bs : List Bucket) (c : TextMap ℕ) (s : ℤ) (q : Text)
    → IsWindow n lo h bs c
    → s ≢ pos 0
    → lo ≤ℤ s
    → s <ℤ lo +ℤ pos n
    → length h + 1 < int64_sign
    → IsWindow n lo
        ((s, q) ∷ h)
        (count_event s q (bucket_index s n) bs c).0
        (count_event s q (bucket_index s n) bs c).1
count_event-IsWindow n lo h bs c s q w nz first last small =
    let below : bucket_index s n < length bs =
      omega (int_laws, w.sized, bucket_index-lt s n (omega int_laws)) in
    let (b, at) = get_elem?-some bs (bucket_index s n) below in
    counted-IsWindow n lo h bs c w s nz first last small q b at
