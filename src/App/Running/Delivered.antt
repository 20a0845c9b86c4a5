-- ===== src/App/Running/Delivered.antt =====
-- The messages that the program fetches against those that it commits.
use wb_test_task.Base.{
  ◌<◌, ◌≡◌, refl, sym, ap, ◌∙◌, Bool, true, Option, none, some, List, [], ◌∷◌, inl, inr, ◌⊎◌, arith,
  subst,
}
use wb_test_task.Base.Int.{ℤ, pos_part}
use wb_test_task.Runtime.{
  Error, context, Context, ContextError, is_context_error, Duration, Result, ok, err,
}
use wb_test_task.Aggregator.Types.{InMemoryAggregator}
use wb_test_task.Aggregator.{RunState, returned, waiting, run, is_validation_error}
use wb_test_task.Kafka.{KafkaSearchEvent, Message}
use wb_test_task.Kafka.Decoder.{decode}
use wb_test_task.Kafka.Commits.{is_done}
use wb_test_task.Kafka.Rounds.{Advanced, round_advances}
use wb_test_task.Kafka.Consumer.{
  Consumer, Answers, fetch_failed, fetched, Outcome, stopped, commit_failed, goes_on, new_consumer,
  process_message, handler_answered, note_call, run_round,
}
use wb_test_task.App.{App}
use wb_test_task.App.Delivery.{IsDelivered, answer_to, decode-IsDelivered}
use wb_test_task.App.Running.{
  Outside, Worker, ended, Delivery, answers_to, Fetch, no_message, got, Action, signal, wake,
  consume, call, grpc_listen, grpc_stop, grpc_return, metrics_stop, metrics_return, System, launch,
  deliver, receive, woken, consumed, act, IsEnabled, Reaches, at_once, after,
}

-- The messages fetched, the last one first, over those before.
unfoldable pub fetched_messages : List Action → List Message → List Message
fetched_messages [] log = log
fetched_messages (consume (got m d) ∷ actions) log = fetched_messages actions (m ∷ log)
fetched_messages (_ ∷ actions) log = fetched_messages actions log

-- All messages are committed, or the consumer has returned, and the last one may not be.
abbrev AllCommitted : Consumer → Worker → List Message → Type 0
AllCommitted c w log =
    ((0 < pos_part c.commit_retries) × (c.committed ≡ log))
    ⊎ (((r : Option Error) × (w ≡ ended r))
        × ((c.committed ≡ log) ⊎ ((m : Message) × (m ∷ c.committed ≡ log))))

new_consumer_retries :
    (b : Bool) (retries : ℤ) (backoff : Duration)
    → 0 < pos_part (new_consumer b retries backoff).commit_retries
unfolding new_consumer
new_consumer_retries b retries backoff = ground arith

new_consumer_none :
    (b : Bool) (retries : ℤ) (backoff : Duration) → (new_consumer b retries backoff).committed ≡ []
unfolding new_consumer
new_consumer_none b retries backoff = refl

-- A message whose handler answers that its context is done stops the consumer.
context_stops :
    (m : Message) (event : KafkaSearchEvent) (e : ContextError) (d : Delivery) (c : Consumer)
    → (run_round (fetched m (answers_to d (ok event) (some (context e)))) c).1 ≡ stopped
unfolding run_round process_message handler_answered note_call is_validation_error is_context_error
context_stops m event e d c = refl

module _ (out : Outside) where
  open out use {unicode, unmarshal, parse_time}

  abbrev IsCommitted : System out → List Message → Type 0
  IsCommitted s log = AllCommitted s.consumer s.consumer_thread log

  fetched-IsCommitted :
      (m : Message) (a : Answers) (c : Consumer) (r : Consumer × Outcome) (app : App)
      (s : System out) (log : List Message)
      → 0 < pos_part c.commit_retries
      → c.committed ≡ log
      → Advanced (fetched m a) c r
      → (is_done a.decoded a.handled_with ≡ true) ⊎ (r.1 ≡ stopped)
      → IsCommitted (consumed out r app s) (m ∷ log)
  fetched-IsCommitted m a c (d, goes_on) app s log p q (v, w) (inl done) =
      inl (rw w p, v ∙ rw done (ap (λ l. m ∷ l) q))
  fetched-IsCommitted m a c (d, goes_on) app s log p q v (inr e) = cc
  fetched-IsCommitted m a c (d, stopped) app s log p q v h =
      inr ((none, refl), inr (m, ap (λ l. m ∷ l) (v ∙ q)))
  fetched-IsCommitted m a c (d, commit_failed e) app s log p q v h =
      inr ((some e, refl), inr (m, ap (λ l. m ∷ l) (v ∙ q)))

  unfetched-IsCommitted :
      (e : Error) (pause : Context) (c : Consumer) (r : Consumer × Outcome) (app : App)
      (s : System out) (log : List Message)
      → 0 < pos_part c.commit_retries
      → c.committed ≡ log
      → Advanced (fetch_failed e pause) c r
      → IsCommitted (consumed out r app s) log
  unfetched-IsCommitted e pause c (d, goes_on) app s log p q (v, w) = inl (rw w p, v ∙ q)
  unfetched-IsCommitted e pause c (d, stopped) app s log p q v = inr ((none, refl), inl (v ∙ q))
  unfetched-IsCommitted e pause c (d, commit_failed x) app s log p q v =
      inr ((some x, refl), inl (v ∙ q))

  elsewhere :
      (r : InMemoryAggregator × RunState) (s : System out)
      → ((woken out r s).consumer ≡ s.consumer)
        × ((woken out r s).consumer_thread ≡ s.consumer_thread)
  elsewhere (agg, waiting) s = (refl, refl)
  elsewhere (agg, returned x) s = (refl, refl)

  deliver-IsCommitted :
      (m : Message) (d : Delivery) (r : Result KafkaSearchEvent) (app : App) (s : System out)
      (log : List Message)
      → 0 < pos_part s.consumer.commit_retries
      → s.consumer.committed ≡ log
      → IsDelivered r (answer_to unicode d.limiter_ctx d.add_ctx d.now app r)
      → IsCommitted
          (consumed out
            (run_round (deliver out m d r app).1 s.consumer)
            (deliver out m d r app).0
            s)
          (m ∷ log)
  deliver-IsCommitted m d (err e) app s log p q (inr (x, v)) = cc
  deliver-IsCommitted m d (err e) app s log p q (inl done) =
      fetched-IsCommitted m (answers_to d (err e) none) s.consumer _ app s log p q
        (round_advances (deliver out m d (err e) app).1 s.consumer p) (inl done)
  deliver-IsCommitted m d (ok event) app s log p q h =
      let (app', round) = deliver out m d (ok event) app in
      let answer = answer_to unicode d.limiter_ctx d.add_ctx d.now app (ok event) in
      fetched-IsCommitted m (answers_to d (ok event) answer) s.consumer _ app' s log p q
        (round_advances round s.consumer p) (settled h)
    where
      settled :
          IsDelivered (ok event) (answer_to unicode d.limiter_ctx d.add_ctx d.now app (ok event))
          → (is_done (ok event) (answer_to unicode d.limiter_ctx d.add_ctx d.now app (ok event))
              ≡ true)
            ⊎ ((run_round (deliver out m d (ok event) app).1 s.consumer).1 ≡ stopped)
      settled (inl done) = inl done
      settled (inr (x, v)) = inr (
          subst (λ w. (run_round (fetched m (answers_to d (ok event) w)) s.consumer).1 ≡ stopped)
            (sym v) (context_stops m event x d s.consumer))

  -- a message more where one is fetched
  abbrev more : Action → List Message → List Message
  more (consume (got m d)) log = m ∷ log
  more _ log = log

  consume-IsCommitted :
      (f : Fetch) (s : System out) (log : List Message)
      → IsEnabled out (consume f) s
      → IsCommitted s log
      → IsCommitted (act out (consume f) s) (more (consume f) log)
  unfolding act receive
  consume-IsCommitted (no_message e pause) s log enabled (inl (p, q)) =
      unfetched-IsCommitted e pause s.consumer _ s.app s log p q
        (round_advances (fetch_failed e pause) s.consumer p)
  consume-IsCommitted (no_message e pause) s log enabled (inr ((r, over), h)) = cc enabled.0
  consume-IsCommitted (got m d) s log enabled (inl (p, q)) =
      deliver-IsCommitted m d (decode unmarshal parse_time m.value) s.app s log p q (
        decode-IsDelivered unicode unmarshal parse_time d.limiter_ctx d.add_ctx d.now s.app m.value)
  consume-IsCommitted (got m d) s log enabled (inr ((r, over), h)) = cc enabled.0

  act-IsCommitted :
      (a : Action) (s : System out) (log : List Message)
      → IsEnabled out a s
      → IsCommitted s log
      → IsCommitted (act out a s) (more a log)
  unfolding act
  act-IsCommitted signal s log enabled h = h
  act-IsCommitted (wake w) s log enabled h =
      let (p, q) = elsewhere (run (w ∷ []) s.app.agg) s in
      subst (λ c. AllCommitted c (woken out (run (w ∷ []) s.app.agg) s).consumer_thread log) (sym p)
        (subst (λ t. AllCommitted s.consumer t log) (sym q) h)
  act-IsCommitted (consume f) s log enabled h = consume-IsCommitted f s log enabled h
  act-IsCommitted (call ctx c) s log enabled h = h
  act-IsCommitted (grpc_listen none) s log enabled h = h
  act-IsCommitted (grpc_listen (some e)) s log enabled h = h
  act-IsCommitted grpc_stop s log enabled h = h
  act-IsCommitted (grpc_return x) s log enabled h = h
  act-IsCommitted metrics_stop s log enabled h = h
  act-IsCommitted (metrics_return x) s log enabled h = h

  fetched_messages-cons :
      (a : Action) (actions : List Action) (log : List Message)
      → fetched_messages (a ∷ actions) log ≡ fetched_messages actions (more a log)
  unfolding fetched_messages
  fetched_messages-cons (consume (got m d)) actions log = refl
  fetched_messages-cons (consume (no_message e pause)) actions log = refl
  fetched_messages-cons signal actions log = refl
  fetched_messages-cons (wake w) actions log = refl
  fetched_messages-cons (call ctx c) actions log = refl
  fetched_messages-cons (grpc_listen answer) actions log = refl
  fetched_messages-cons grpc_stop actions log = refl
  fetched_messages-cons (grpc_return x) actions log = refl
  fetched_messages-cons metrics_stop actions log = refl
  fetched_messages-cons (metrics_return x) actions log = refl

  Reaches-IsCommitted :
      (actions : List Action) (s t : System out) (log : List Message)
      → Reaches out s actions t
      → IsCommitted s log
      → IsCommitted t (fetched_messages actions log)
  unfolding fetched_messages
  Reaches-IsCommitted [] s t log at_once h = h
  Reaches-IsCommitted (a ∷ actions) s t log (after _ enabled rest) h =
      rw (fetched_messages-cons a actions log) (
        Reaches-IsCommitted actions (act out a s) t (more a log) rest
          (act-IsCommitted a s log enabled h))

  -- In any interleaving of the goroutines, whatever the Kafka client, json.Unmarshal and time.Parse
  -- answer, the messages that the program has committed are all that it has fetched, each once and in
  -- order: only when the consumer has returned, the last one may be missing.
  pub Reaches-committed :
      (app : App) (has_metrics : Bool) (retries : ℤ) (backoff : Duration) (actions : List Action)
      (t : System out)
      → Reaches out (launch out app (new_consumer has_metrics retries backoff)) actions t
      → (t.consumer.committed ≡ fetched_messages actions [])
        ⊎ (((r : Option Error) × (t.consumer_thread ≡ ended r))
            × ((m : Message) × (m ∷ t.consumer.committed ≡ fetched_messages actions [])))
  Reaches-committed app has_metrics retries backoff actions t r =
      let c = new_consumer has_metrics retries backoff in
      elim (Reaches-IsCommitted actions (launch out app c) t [] r (
        inl (
          new_consumer_retries has_metrics retries backoff,
          new_consumer_none has_metrics retries backoff,
        ))) [ inl (p, q) ↦ inl q | inr (over, inl q) ↦ inl q | inr (over, inr q) ↦ inr (over, q) ]
