-- ===== src/App/Tallied.antt =====
-- The statuses that the handler of events counts, one for each event.
use wb_test_task.Base.{
  ℕ, ◌≡◌, refl, ◌∙◌, not, Option, none, some, List, [], ◌∷◌, ◌⊎◌, inl, inr, Bool-cases,
}
use wb_test_task.Base.Int.{ℤ}
use wb_test_task.Base.Text.{Text, codes}
use wb_test_task.Runtime.{Result, ok, err, Time}
use wb_test_task.Unicode.{Unicode}
use wb_test_task.Aggregator.Types.{
  MetricCall, call as call_metrics, observe_event, set_unique_queries, set_top_cache_size,
  InMemoryAggregator, SearchEvent,
}
use wb_test_task.Aggregator.{
  observe, add_locked, add_validated, add, validate_and_normalize, set_counter_metrics_locked,
  expire_locked, bucket_second,
}
use wb_test_task.Stoplist.{contains}
use wb_test_task.Antispam.{Decision, allow, allowed_decision}
use wb_test_task.Kafka.{KafkaSearchEvent, to_aggregator_event}
use wb_test_task.App.{App, limiter_event, decided, handle_search_event}

-- The statuses of the calls of ObserveEvent, the last one first.
unfoldable pub statuses : List MetricCall → List Text
statuses [] = []
statuses (observe_event status ∷ calls) = status ∷ statuses calls
statuses (_ ∷ calls) = statuses calls

abbrev pub calls_of : InMemoryAggregator → List MetricCall
calls_of a = elim a.metrics [ none ↦ [] | some calls ↦ calls ]

-- One status more, and the counters as they were unless it is that of an accepted event.
abbrev pub IsTallied : InMemoryAggregator → InMemoryAggregator → Type 0
IsTallied a b =
    (status : Text) × (statuses (calls_of b) ≡ status ∷ statuses (calls_of a))
    × ((status ≡ codes "accepted") ⊎ (b.counters ≡ a.counters))

observe-IsTallied :
    (status : Text) (a : InMemoryAggregator) (calls : List MetricCall)
    → a.metrics ≡ some calls
    → IsTallied a (observe (observe_event status) a)
unfolding statuses
observe-IsTallied status a calls h = (status, rw h refl, inr refl)

accepted_status :
    (m : Option (List MetricCall)) (x y : ℕ) (calls : List MetricCall)
    → m ≡ some calls
    → statuses
        (elim (call_metrics
          (call_metrics (call_metrics m (set_unique_queries x)) (set_top_cache_size y))
          (observe_event (codes "accepted"))) [ none ↦ [] | some l ↦ l ])
      ≡ codes "accepted" ∷ statuses calls
unfolding statuses
accepted_status m x y calls h = rw h refl

add_locked-IsTallied :
    (a : InMemoryAggregator) (s : ℤ) (q : Text) (now : Time) (calls : List MetricCall)
    → a.metrics ≡ some calls
    → IsTallied a (add_locked a s q now)
unfolding add_locked expire_locked set_counter_metrics_locked
add_locked-IsTallied a s q now calls h =
    (codes "accepted", accepted_status a.metrics _ _ calls h ∙ rw h refl, inl refl)

module _ (u : Unicode) where
  validated-IsTallied :
      (a : InMemoryAggregator) (event : SearchEvent) (now : Time) (calls : List MetricCall)
      (r : Result (Option Text))
      → a.metrics ≡ some calls
      → IsTallied a (add_validated a event now r).0
  validated-IsTallied a event now calls (err e) h = observe-IsTallied (codes "invalid") a calls h
  validated-IsTallied a event now calls (ok none) h = observe-IsTallied (codes "expired") a calls h
  validated-IsTallied a event now calls (ok (some query)) h =
      add_locked-IsTallied a (bucket_second a.cfg event.timestamp) query now calls h

  add-IsTallied :
      (event : SearchEvent) (now : Time) (a : InMemoryAggregator) (calls : List MetricCall)
      → a.metrics ≡ some calls
      → IsTallied a (add u none event now a).0
  unfolding add
  add-IsTallied event now a calls h =
      validated-IsTallied a event now calls (validate_and_normalize u a.cfg event now) h

  decided-IsTallied :
      (event : KafkaSearchEvent) (now : Time) (app : App) (d : Decision) (calls : List MetricCall)
      → app.agg.metrics ≡ some calls
      → IsTallied app.agg (decided u none event now app (ok d)).0.agg
  decided-IsTallied event now app d calls h = elim (Bool-cases (not d.allowed)) [
    | inl e ↦ rw e (observe-IsTallied (codes "rate_limited") app.agg calls h)
    | inr e ↦ rw e (add-IsTallied (to_aggregator_event event) now app.agg calls h)
  ]

  allowed-IsTallied :
      (event : KafkaSearchEvent) (now : Time) (app : App) (calls : List MetricCall)
      → app.agg.metrics ≡ some calls
      → IsTallied app.agg
          (decided u none event now
            (record app { limiter = (allow none (limiter_event event) app.limiter).0 })
            (allow none (limiter_event event) app.limiter).1).0.agg
  unfolding allow
  allowed-IsTallied event now app calls h = elim (Bool-cases app.limiter.cfg.enabled) [
    | inl e ↦ rw e (decided-IsTallied event now app allowed_decision calls h)
    | inr e ↦ rw e (decided-IsTallied event now app allowed_decision calls h)
  ]

  -- With metrics, and while its context is not done, the handler of events adds exactly one status to
  -- the counter of events for each event, whatever the event is, and it changes the counters of the
  -- queries only with the status of an accepted event.
  pub handle_search_event-IsTallied :
      (event : KafkaSearchEvent) (now : Time) (app : App) (calls : List MetricCall)
      → app.agg.metrics ≡ some calls
      → IsTallied app.agg (handle_search_event u none none event now app).0.agg
  unfolding handle_search_event
  handle_search_event-IsTallied event now app calls h =
      elim (Bool-cases (contains u app.stop_words event.query)) [
        | inl e ↦ rw e (observe-IsTallied (codes "stopped") app.agg calls h)
        | inr e ↦ rw e (allowed-IsTallied event now app calls h)
      ]
