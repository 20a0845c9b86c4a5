-- ===== src/Aggregator/Exact.antt =====
-- The methods that change the aggregator, against the history of the events that Add counted.
use wb_test_task.Base.{
  ℕ, zero, suc, ◌+◌, ◌<◌, ◌≡◌, ◌≢◌, refl, sym, ap, ◌∙◌, none, [], ◌∷◌, length, replicate, arith,
  inl, inr, Bool-cases, ◌&&◌, not, get_elem?-replicate, length-replicate, subst,
}
use wb_test_task.Base.Int.{ℤ, pos, ◌+ℤ◌, ◌≤ℤ◌, ◌<ℤ◌, int_laws}
use wb_test_task.Base.Text.{Text}
use wb_test_task.Base.Word.{int64_sign}
use wb_test_task.Runtime.{Time}
use wb_test_task.TextMap.{lookup, entry}
use wb_test_task.Aggregator.Types.{Config, Bucket, InMemoryAggregator}
use wb_test_task.Aggregator.{
  created, new, bucket_second, cutoff_second, expire_locked, add_locked, rebuild_locked,
}
use wb_test_task.Aggregator.Window.{History, occurrences, since, total, IsBucket, IsWindow}
use wb_test_task.Aggregator.Tally.{count_of-entry}
use wb_test_task.Aggregator.Window.Expired.{expire_buckets-IsWindow}
use wb_test_task.Aggregator.Window.Counted.{count_event-IsWindow}
use wb_test_task.Aggregator.Window.Since.{total-eq-since}

-- The aggregator holds the events of a history from the second `lo` on.
abbrev pub Tracks : ℤ → History → InMemoryAggregator → Type 0
Tracks lo h a = IsWindow a.bucket_count lo h a.buckets a.counters

-- A query's entry in the counters is how often it was counted since the window began.
pub counters-eq-since :
    (lo : ℤ) (h : History) (a : InMemoryAggregator)
    → Tracks lo h a
    → (q : Text) → lookup q a.counters ≡ entry (since h lo q)
counters-eq-since lo h a w q =
    w.counters_hold.summed q
    ∙ ap entry (total-eq-since a.bucket_count lo h a.buckets w.buckets_hold w.history_held q)

abbrev free_bucket : Bucket
free_bucket = record { unix_second = pos 0; counts = none }

new-starts_empty :
    (cfg : Config) (now : Time) (a : InMemoryAggregator)
    → new cfg now ≡ created a
    → (a.buckets ≡ replicate a.bucket_count free_bucket) × (a.counters ≡ [])
unfolding new
new-starts_empty cfg now a e = ground arith

occurrences_nil : (s : ℤ) (q : Text) → occurrences [] s q ≡ 0
unfolding occurrences
occurrences_nil s q = refl

lookup_nil : (q : Text) → lookup {V = ℕ} q [] ≡ none
unfolding lookup
lookup_nil q = refl

total-replicate : (n : ℕ) (q : Text) → total q (replicate n free_bucket) ≡ 0
unfolding total
total-replicate zero q = refl
total-replicate (suc n) q = omega (arith, total-replicate n q, count_of-entry q [] 0 (lookup_nil q))

free_bucket-IsBucket : (n : ℕ) (lo : ℤ) (i : ℕ) → IsBucket n lo [] i free_bucket
free_bucket-IsBucket n lo i = record {
  counted = λ q. lookup_nil q ∙ ap entry (sym (occurrences_nil (pos 0) q));
  distinct = tt;
  fresh = λ _. refl;
  placed = λ z. absurd (z refl);
  after = λ z. absurd (z refl);
  before = λ z. absurd (z refl);
}

free-IsWindow : (n : ℕ) (lo : ℤ) → IsWindow n lo [] (replicate n free_bucket) []
free-IsWindow n lo = record {
  sized = length-replicate n free_bucket;
  buckets_hold = λ i b e.
      subst (IsBucket n lo [] i) (get_elem?-replicate n free_bucket b i e)
        (free_bucket-IsBucket n lo i);
  history_held = record {
    kept = λ s q p. absurd (omega (arith, occurrences_nil s q));
    nonzero = λ q. occurrences_nil (pos 0) q;
  };
  counters_hold = record {
    summed = λ q. lookup_nil q ∙ ap entry (sym (total-replicate n q));
    keys = tt;
  };
}

pub new-Tracks :
    (cfg : Config) (now : Time) (a : InMemoryAggregator) (lo : ℤ)
    → new cfg now ≡ created a
    → Tracks lo [] a
new-Tracks cfg now a lo e =
    let (b, c) = new-starts_empty cfg now a e in rw (b, c) (free-IsWindow a.bucket_count lo)

pub expire_locked-Tracks :
    (lo : ℤ) (h : History) (a : InMemoryAggregator) (now : Time)
    → Tracks lo h a
    → lo ≤ℤ cutoff_second a now
    → length h < int64_sign
    → Tracks (cutoff_second a now) h (expire_locked a now).0
unfolding expire_locked
expire_locked-Tracks lo h a now w forward small =
    expire_buckets-IsWindow a.bucket_count lo (cutoff_second a now) h a.buckets a.counters forward
      small w

-- The window of a time ends with the second of that time.
cutoff_second-end :
    (a : InMemoryAggregator) (now : Time) (s : ℤ)
    → s ≤ℤ bucket_second a.cfg now
    → s <ℤ cutoff_second a now +ℤ pos a.bucket_count
unfolding cutoff_second
cutoff_second-end a now s h = omega int_laws

pub add_locked-Tracks :
    (lo : ℤ) (h : History) (a : InMemoryAggregator) (s : ℤ) (q : Text) (now : Time)
    → Tracks lo h a
    → lo ≤ℤ cutoff_second a now
    → length h + 1 < int64_sign
    → s ≢ pos 0
    → cutoff_second a now ≤ℤ s
    → s ≤ℤ bucket_second a.cfg now
    → Tracks (cutoff_second a now) ((s, q) ∷ h) (add_locked a s q now)
unfolding add_locked
add_locked-Tracks lo h a s q now w forward small nz first last =
    count_event-IsWindow a.bucket_count (cutoff_second a now) h _ _ s q
      (expire_locked-Tracks lo h a now w forward (omega arith)) nz first
      (cutoff_second-end a now s last) small

pub rebuild_locked-Tracks :
    (lo : ℤ) (h : History) (a : InMemoryAggregator) (now : Time)
    → Tracks lo h a
    → lo ≤ℤ cutoff_second a now
    → length h < int64_sign
    → Tracks (cutoff_second a now) h (rebuild_locked now a)
unfolding rebuild_locked
rebuild_locked-Tracks lo h a now w forward small =
    let moved = expire_locked-Tracks lo h a now w forward small in
    elim (Bool-cases (not (expire_locked a now).0.dirty && not (expire_locked a now).1)) [
      | inl clean ↦ rw clean moved
      | inr stale ↦ rw stale moved
    ]
