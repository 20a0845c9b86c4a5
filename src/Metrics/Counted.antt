-- ===== src/Metrics/Counted.antt =====
-- The series that the aggregator counts in.
use wb_test_task.Base.Int.{ℤ}
use wb_test_task.Base.{
  ℕ, refl, not, ◌&&◌, Bool-cases, Option, none, some, List, [], ◌∷◌, All, inl, inr,
}
use wb_test_task.Base.Text.{Text, codes}
use wb_test_task.Runtime.{Context, Result, ok, err, Time, Duration}
use wb_test_task.Unicode.{Unicode}
use wb_test_task.Aggregator.Types.{
  MetricCall, call as call_metrics, observe_event, set_unique_queries, set_top_cache_size,
  set_window_buckets, observe_top_rebuild, set_current_window_seconds, SearchEvent,
  InMemoryAggregator,
}
use wb_test_task.Aggregator.{
  observe, add_locked, add_validated, add, rebuild_locked, rebuild_top, validate_and_normalize,
  set_counter_metrics_locked, expire_locked, bucket_second,
}
use wb_test_task.Aggregator.Runs.{
  Drop, stop_word, over_limit, drop_status, Operation, add_event, drop_event, rebuild, perform,
  perform_all,
}
use wb_test_task.Metrics.{
  Sample, observe_event_status, set_unique_queries_to, set_top_cache_size_to, set_window_buckets_to,
  observe_top_rebuild_status, set_current_window_seconds_to, prime_labels,
}
use wb_test_task.Metrics.Primed.{IsSeries, AllOf}

-- What the aggregator's calls do to the metrics.
unfoldable pub window_samples : MetricCall → List Sample
unfolding observe_event_status set_unique_queries_to set_top_cache_size_to set_window_buckets_to
    observe_top_rebuild_status set_current_window_seconds_to
window_samples (observe_event status) = observe_event_status status
window_samples (set_unique_queries n) = set_unique_queries_to n
window_samples (set_top_cache_size n) = set_top_cache_size_to n
window_samples (set_window_buckets n) = set_window_buckets_to n
window_samples (observe_top_rebuild status d) = observe_top_rebuild_status status d
window_samples (set_current_window_seconds n) = set_current_window_seconds_to n

abbrev pub IsCounted : InMemoryAggregator → Type 0
IsCounted a = AllOf (λ call. All IsSeries (window_samples call)) a.metrics

observe-IsCounted :
    (call : MetricCall) (a : InMemoryAggregator)
    → All IsSeries (window_samples call)
    → IsCounted a
    → IsCounted (observe call a)
observe-IsCounted call a h k = noted a.metrics k
  where
    noted :
        (m : Option (List MetricCall))
        → AllOf (λ c. All IsSeries (window_samples c)) m
        → AllOf (λ c. All IsSeries (window_samples c)) (call_metrics m call)
    noted none k = tt
    noted (some calls) k = (h, k)

note_event :
    (status : Text) (a : InMemoryAggregator)
    → All IsSeries (window_samples (observe_event status))
    → IsCounted a
    → IsCounted (observe (observe_event status) a)
note_event status a h k = observe-IsCounted (observe_event status) a h k

status_accepted : All IsSeries (window_samples (observe_event (codes "accepted")))
unfolding window_samples prime_labels
status_accepted = (inr (inr (inr (inr (inl refl)))), tt)

status_expired : All IsSeries (window_samples (observe_event (codes "expired")))
unfolding window_samples prime_labels
status_expired = (inr (inr (inr (inr (inr (inr (inr (inr (inl refl)))))))), tt)

status_invalid : All IsSeries (window_samples (observe_event (codes "invalid")))
unfolding window_samples prime_labels
status_invalid = (inr (inr (inr (inr (inr (inr (inr (inr (inr (inl refl))))))))), tt)

status_dropped : (why : Drop) → All IsSeries (window_samples (observe_event (drop_status why)))
unfolding window_samples prime_labels
status_dropped stop_word = (inr (inr (inr (inr (inr (inr (inl refl)))))), tt)
status_dropped over_limit = (inr (inr (inr (inr (inr (inr (inr (inl refl))))))), tt)

rebuild_success :
    (d : Duration) → All IsSeries (window_samples (observe_top_rebuild (codes "success") d))
unfolding window_samples prime_labels
rebuild_success d = (inr (inr (inr (inr (inr (inr (inr (inr (inr (inr (inl refl)))))))))), (tt, tt))

rebuild_failed :
    (d : Duration) → All IsSeries (window_samples (observe_top_rebuild (codes "failed") d))
unfolding window_samples prime_labels
rebuild_failed d =
    (inr (inr (inr (inr (inr (inr (inr (inr (inr (inr (inr (inl refl))))))))))), (tt, tt))

abbrev AreCounted : Option (List MetricCall) → Type 0
AreCounted = AllOf (λ call. All IsSeries (window_samples call))

counter_calls :
    (m : Option (List MetricCall)) (x y : ℕ)
    → AreCounted m
    → AreCounted (call_metrics (call_metrics m (set_unique_queries x)) (set_top_cache_size y))
unfolding window_samples
counter_calls none x y h = tt
counter_calls (some calls) x y h = ((tt, tt), ((tt, tt), h))

accepted_calls :
    (m : Option (List MetricCall)) (x y : ℕ)
    → AreCounted m
    → AreCounted (
        call_metrics
          (call_metrics (call_metrics m (set_unique_queries x)) (set_top_cache_size y))
          (observe_event (codes "accepted")))
unfolding window_samples
accepted_calls none x y h = tt
accepted_calls (some calls) x y h = (status_accepted, ((tt, tt), ((tt, tt), h)))

add_locked-IsCounted :
    (a : InMemoryAggregator) (s : ℤ) (q : Text) (now : Time)
    → IsCounted a
    → IsCounted (add_locked a s q now)
unfolding add_locked expire_locked set_counter_metrics_locked
add_locked-IsCounted a s q now h = accepted_calls a.metrics _ _ h

rebuild_locked-IsCounted :
    (now : Time) (a : InMemoryAggregator) → IsCounted a → IsCounted (rebuild_locked now a)
unfolding rebuild_locked expire_locked set_counter_metrics_locked
rebuild_locked-IsCounted now a h = elim (Bool-cases (not a.dirty && not (expire_locked a now).1)) [
  | inl e ↦ rw e (counter_calls a.metrics _ _ h)
  | inr e ↦ rw e (counter_calls a.metrics _ _ h)
]

module _ (u : Unicode) where
  add-IsCounted :
      (ctx : Context) (event : SearchEvent) (now : Time) (a : InMemoryAggregator)
      → IsCounted a
      → IsCounted (add u ctx event now a).0
  unfolding add
  add-IsCounted (some e) event now a h = h
  add-IsCounted none event now a h = validated (validate_and_normalize u a.cfg event now)
    where
      validated : (r : Result (Option Text)) → IsCounted (add_validated a event now r).0
      validated (err e) = note_event (codes "invalid") a status_invalid h
      validated (ok none) = note_event (codes "expired") a status_expired h
      validated (ok (some query)) =
          add_locked-IsCounted a (bucket_second a.cfg event.timestamp) query now h

  perform-IsCounted :
      (op : Operation) (a : InMemoryAggregator) → IsCounted a → IsCounted (perform u op a)
  unfolding perform rebuild_top
  perform-IsCounted (add_event ctx event now) a h = add-IsCounted ctx event now a h
  perform-IsCounted (drop_event why) a h = note_event (drop_status why) a (status_dropped why) h
  perform-IsCounted (rebuild (some e) now elapsed) a h =
      observe-IsCounted (observe_top_rebuild (codes "failed") elapsed) a (rebuild_failed elapsed) h
  perform-IsCounted (rebuild none now elapsed) a h =
      observe-IsCounted (observe_top_rebuild (codes "success") elapsed) (rebuild_locked now a)
        (rebuild_success elapsed) (rebuild_locked-IsCounted now a h)

  -- Every counter that calls of Add and RebuildTop, and dropped events, add to has no labels or is a series that New makes
  -- in advance, if that holds of what the aggregator did before.
  pub perform_all-IsCounted :
      (ops : List Operation) (a : InMemoryAggregator)
      → IsCounted a
      → IsCounted (perform_all u ops a)
  unfolding perform_all
  perform_all-IsCounted [] a h = h
  perform_all-IsCounted (op ∷ ops) a h =
      perform_all-IsCounted ops (perform u op a) (perform-IsCounted op a h)
