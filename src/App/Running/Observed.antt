-- ===== src/App/Running/Observed.antt =====
-- The steps in which the aggregator or the consumer finds the context of the group done.
use wb_test_task.Base.{sym, subst, ◌≡◌, refl, ◌⊎◌, inl, inr, true, false, none, some, Bool-cases}
use wb_test_task.Runtime.{Error, Context, ContextError, context, is_context_error, ok}
use wb_test_task.Aggregator.{add, context_done, tick, run, rebuild_top, is_validation_error}
use wb_test_task.Unicode.{Unicode}
use wb_test_task.Stoplist.{contains}
use wb_test_task.Antispam.{allow}
use wb_test_task.Kafka.{KafkaSearchEvent, Message}
use wb_test_task.Kafka.Decoder.{decode}
use wb_test_task.Kafka.Consumer.{
  Consumer, process_message, handler_answered, note_call, run_round, fetch_failed, fetched, Outcome,
  stopped, goes_on, commit_failed,
}
use wb_test_task.App.{add_error, App, handle_search_event}
use wb_test_task.App.Running.{
  Worker, Fetch, Outside, ended, Delivery, answers_to, no_message, got, Action, signal, wake,
  consume, call, grpc_listen, grpc_stop, grpc_return, metrics_stop, metrics_return, System, deliver,
  receive, consumed, act,
}

-- A failed fetch that shows the end of the context: the error is of the context, or the pause ends
-- with it.
abbrev pub IsEndOfFetch : Error → Context → Type 0
IsEndOfFetch e pause = (is_context_error e ≡ true) ⊎ ((x : ContextError) × (pause ≡ some x))

abbrev Stops : Consumer → Consumer × Outcome → Type 0
Stops c r = (r.1 ≡ stopped) × (r.0.committed ≡ c.committed)

fetch_failed-Stops :
    (e : Error) (pause : Context) (c : Consumer)
    → IsEndOfFetch e pause
    → Stops c (run_round (fetch_failed e pause) c)
unfolding run_round note_call
fetch_failed-Stops e pause c (inl p) = rw p (refl, refl)
fetch_failed-Stops e pause c (inr (x, p)) = elim (Bool-cases (is_context_error e)) [
  | inl q ↦ rw q (refl, refl)
  | inr q ↦ rw (q, p) (refl, refl)
]

context-Stops :
    (m : Message) (event : KafkaSearchEvent) (x : ContextError) (d : Delivery) (c : Consumer)
    → Stops c (run_round (fetched m (answers_to d (ok event) (some (context x)))) c)
unfolding run_round process_message handler_answered note_call is_validation_error is_context_error
context-Stops m event x d c = (refl, refl)

-- The limiter, or Add after it, looks at a context that has ended.
abbrev pub IsEndOfHandler : Delivery → ContextError → Type 0
IsEndOfHandler d x = (d.limiter_ctx ≡ some x) ⊎ ((d.limiter_ctx ≡ none) × (d.add_ctx ≡ some x))

-- The handler answers with the error of the context.
handler_ends :
    (u : Unicode) (event : KafkaSearchEvent) (x : ContextError) (d : Delivery) (app : App)
    → contains u app.stop_words event.query ≡ false
    → IsEndOfHandler d x
    → (handle_search_event u d.limiter_ctx d.add_ctx event d.now app).1 ≡ some (context x)
unfolding handle_search_event allow add add_error is_validation_error
handler_ends u event x d app q (inl p) = rw (p, q) refl
handler_ends u event x d app q (inr (p, r)) = elim (Bool-cases app.limiter.cfg.enabled) [
  | inl e ↦ rw (p, q, r, e) refl
  | inr e ↦ rw (p, q, r, e) refl
]

module _ (out : Outside) where
  open out use {unicode, unmarshal, parse_time, errgroup}
  open errgroup use {failure, failure-finish_nil}

  deliver-Stops :
      (m : Message) (d : Delivery) (event : KafkaSearchEvent) (x : ContextError) (app : App)
      (c : Consumer)
      → contains unicode app.stop_words event.query ≡ false
      → IsEndOfHandler d x
      → Stops c (run_round (deliver out m d (ok event) app).1 c)
  deliver-Stops m d event x app c q p =
      subst (λ w. Stops c (run_round (fetched m (answers_to d (ok event) w)) c))
        (sym (handler_ends unicode event x d app q p)) (context-Stops m event x d c)

  -- The step finds the context of the group done: the aggregator by its channel or in RebuildTop, the
  -- consumer at the fetch or in the handler of an event that is no stop word.
  abbrev pub IsEnd : Action → System out → Type 0
  IsEnd (wake context_done) s = Unit
  IsEnd (wake (tick ctx now elapsed)) s = (x : ContextError) × (ctx ≡ some x)
  IsEnd (consume (no_message e pause)) s = IsEndOfFetch e pause
  IsEnd (consume (got m d)) s =
      (event : KafkaSearchEvent) × (x : ContextError) × (decode unmarshal parse_time m.value
        ≡ ok event)
      × (contains unicode s.app.stop_words event.query ≡ false)
      × IsEndOfHandler d x
  IsEnd _ s = ⊥

  -- Where the goroutine of the step is.
  abbrev pub worker_of : Action → System out → Worker
  worker_of (wake w) s = s.aggregator_thread
  worker_of _ s = s.consumer_thread

  -- The goroutine of a step has returned nil, nothing is committed, and what Wait answers is as before.
  abbrev pub HasEnded : Action → System out → System out → Type 0
  HasEnded a s t =
      (worker_of a t ≡ ended none)
      × (t.consumer.committed ≡ s.consumer.committed)
      × (failure t.group ≡ failure s.group)

  consumed-HasEnded :
      (f : Fetch) (r : Consumer × Outcome) (app : App) (s : System out)
      → Stops s.consumer r
      → HasEnded (consume f) s (consumed out r app s)
  consumed-HasEnded f (c, stopped) app s (p, q) = (refl, q, failure-finish_nil s.group)
  consumed-HasEnded f (c, goes_on) app s (p, q) = cc
  consumed-HasEnded f (c, commit_failed e) app s (p, q) = cc

  -- A step in which the aggregator or the consumer finds the context done, by the channel, in
  -- RebuildTop, at the fetch or the pause after it, or in the limiter or Add for an event that is no
  -- stop word, ends its goroutine with nil, commits no message, and leaves the error that Wait answers
  -- as it was.
  pub act-HasEnded : (a : Action) (s : System out) → IsEnd a s → HasEnded a s (act out a s)
  unfolding act receive run rebuild_top is_context_error
  act-HasEnded (wake context_done) s h = (refl, refl, failure-finish_nil s.group)
  act-HasEnded (wake (tick ctx now elapsed)) s (x, p) =
      rw p (refl, refl, failure-finish_nil s.group)
  act-HasEnded (consume (no_message e pause)) s h =
      consumed-HasEnded (no_message e pause) (run_round (fetch_failed e pause) s.consumer) s.app s
        (fetch_failed-Stops e pause s.consumer h)
  act-HasEnded (consume (got m d)) s (event, x, p, q, h) =
      subst
        (λ r. HasEnded (consume (got m d)) s (
          consumed out (run_round (deliver out m d r s.app).1 s.consumer)
            (deliver out m d r s.app).0 s))
        (sym p)
        (consumed-HasEnded (got m d) _ (deliver out m d (ok event) s.app).0 s
          (deliver-Stops m d event x s.app s.consumer q h))
  act-HasEnded signal s h = absurd h
  act-HasEnded (call _ _) s h = absurd h
  act-HasEnded (grpc_listen _) s h = absurd h
  act-HasEnded grpc_stop s h = absurd h
  act-HasEnded (grpc_return _) s h = absurd h
  act-HasEnded metrics_stop s h = absurd h
  act-HasEnded (metrics_return _) s h = absurd h
