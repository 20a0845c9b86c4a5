-- ===== src/App/Errors.antt =====
-- What the handler of events answers to the consumer.
use wb_test_task.Base.{
  ◌≡◌, refl, sym, ◌∙◌, Bool, true, false, not, Option, none, some, arith, inl, inr, Bool-cases,
}
use wb_test_task.Base.Int.{ℤ, ltb_ℤ, ◌+ℤ◌, ◌-ℤ◌}
use wb_test_task.Runtime.{
  Context, Error, Result, ok, err, empty_query, query_too_long, ◌>>=◌, Time, is_context_error,
  is_zero_time,
}
use wb_test_task.Unicode.{Unicode}
use wb_test_task.Normalizer.{normalize_query, rune_limit}
use wb_test_task.Normalizer.Compact.{compact, judge}
use wb_test_task.Normalizer.Judged.{normalize_query-eq-judge}
use wb_test_task.Aggregator.Types.{Config, SearchEvent, InMemoryAggregator}
use wb_test_task.Aggregator.{add, add_validated, validate_and_normalize, is_validation_error}
use wb_test_task.Stoplist.{contains}
use wb_test_task.Antispam.{LimiterEvent, InMemoryLimiter, Decision, allowed_decision, allow}
use wb_test_task.Kafka.{KafkaSearchEvent, to_aggregator_event}
use wb_test_task.App.{App, add_error, decided, handle_search_event}
use wb_test_task.Base.Text.{Text}
use wb_test_task.Base.{ℕ}

-- An error, if there is one, is of the given kind.
abbrev pub IsOnly : (Error → Bool) → Option Error → Type 0
IsOnly p none = Unit
IsOnly p (some e) = p e ≡ true

abbrev IsInvalid : Result (Option Text) → Type 0
IsInvalid (ok o) = Unit
IsInvalid (err e) = is_validation_error e ≡ true

judged_invalid :
    (limit : ℕ) (out : Text) (e : Error) → judge limit out ≡ err e → is_validation_error e ≡ true
unfolding is_validation_error
judged_invalid limit out empty_query h = refl
judged_invalid limit out query_too_long h = refl
judged_invalid limit out e h = ground arith

module _ (u : Unicode) where
  query_IsInvalid :
      (query : Text) (max_runes : ℤ) (r : Result Text)
      → normalize_query u query max_runes ≡ r
      → IsInvalid (do q ← r; ok (some q))
  query_IsInvalid query max_runes (ok t) h = tt
  query_IsInvalid query max_runes (err e) h =
      judged_invalid (rune_limit max_runes) (compact u false false query) e
        (sym (normalize_query-eq-judge u query max_runes) ∙ h)

  validate_IsInvalid :
      (cfg : Config) (event : SearchEvent) (now : Time)
      → IsInvalid (validate_and_normalize u cfg event now)
  unfolding validate_and_normalize is_validation_error
  validate_IsInvalid cfg event now = elim (Bool-cases (is_zero_time event.timestamp)) [
    | inl a ↦ rw a refl
    | inr a ↦ elim (Bool-cases (ltb_ℤ (now +ℤ cfg.allowed_future_skew) event.timestamp)) [
      | inl b ↦ rw (a, b) refl
      | inr b ↦ elim (Bool-cases (ltb_ℤ event.timestamp (now -ℤ cfg.window))) [
        | inl c ↦ rw (a, b, c) tt
        | inr c ↦ rw (a, b, c) (query_IsInvalid event.query cfg.max_query_runes _ refl)
      ]
    ]
  ]

  validated-IsOnly :
      (a : InMemoryAggregator) (event : SearchEvent) (now : Time) (v : Result (Option Text))
      → IsInvalid v
      → IsOnly is_validation_error (add_validated a event now v).1
  validated-IsOnly a event now (ok none) p = tt
  validated-IsOnly a event now (ok (some q)) p = tt
  validated-IsOnly a event now (err e) p = p

  -- the error of Add, if the context is not done
  add-IsOnly :
      (event : SearchEvent) (now : Time) (a : InMemoryAggregator)
      → IsOnly is_validation_error (add u none event now a).1
  unfolding add
  add-IsOnly event now a = validated-IsOnly a event now _ (validate_IsInvalid a.cfg event now)

  hidden : (o : Option Error) → IsOnly is_validation_error o → add_error o ≡ none
  unfolding add_error
  hidden none p = refl
  hidden (some e) p = rw p refl

  add_context :
      (ctx : Context) (event : SearchEvent) (now : Time) (a : InMemoryAggregator)
      → IsOnly is_context_error (add_error (add u ctx event now a).1)
  unfolding add add_error is_context_error is_validation_error
  add_context (some x) event now a = refl
  add_context none event now a = rw (hidden (add u none event now a).1 (add-IsOnly event now a)) tt

  decided-IsOnly :
      (ctx : Context) (event : KafkaSearchEvent) (now : Time) (app : App) (d : Decision)
      → IsOnly is_context_error (decided u ctx event now app (ok d)).1
  decided-IsOnly ctx event now app d = elim (Bool-cases (not d.allowed)) [
    | inl x ↦ rw x tt
    | inr x ↦ rw x (add_context ctx (to_aggregator_event event) now app.agg)
  ]

  allowed-IsOnly :
      (limiter_ctx ctx : Context) (event : KafkaSearchEvent) (e : LimiterEvent)
      (l : InMemoryLimiter) (now : Time) (app : App)
      → IsOnly is_context_error (decided u ctx event now app (allow limiter_ctx e l).1).1
  unfolding allow is_context_error
  allowed-IsOnly (some x) ctx event e l now app = refl
  allowed-IsOnly none ctx event e l now app = elim (Bool-cases l.cfg.enabled) [
    | inl x ↦ rw x (decided-IsOnly ctx event now app allowed_decision)
    | inr x ↦ rw x (decided-IsOnly ctx event now app allowed_decision)
  ]

  pub handle_search_event-error :
      (limiter_ctx ctx : Context) (event : KafkaSearchEvent) (now : Time) (app : App)
      → IsOnly is_context_error (handle_search_event u limiter_ctx ctx event now app).1
  unfolding handle_search_event
  handle_search_event-error limiter_ctx ctx event now app =
      elim (Bool-cases (contains u app.stop_words event.query)) [
        | inl x ↦ rw x tt
        | inr x ↦ rw x (allowed-IsOnly limiter_ctx ctx event _ app.limiter now _)
      ]
