-- ===== src/App/Running/Parts.antt =====
-- What an interleaving does to the aggregator and to the stop list, as sequences of their own calls.
use wb_test_task.Base.{
  ◌≡◌, refl, ap, ◌∙◌, not, none, some, List, [], ◌∷◌, ◌++◌, inl, inr, Bool-cases, if◌then◌else◌,
}
use wb_test_task.Base.Text.{Text}
use wb_test_task.Runtime.{Context, Result, ok, err}
use wb_test_task.Unicode.{Unicode}
use wb_test_task.Aggregator.Types.{InMemoryAggregator}
use wb_test_task.Aggregator.{RunState, returned, waiting, run}
use wb_test_task.Aggregator.Runs.{
  Operation, add_event, drop_event, stop_word, over_limit, perform, perform_all,
}
use wb_test_task.Aggregator.Loop.{rebuilds, run-perform_all}
use wb_test_task.Antispam.{Decision, allow}
use wb_test_task.Stoplist.{contains, add_word, remove_word}
use wb_test_task.Stoplist.Words.{Change, added, removed, change, change_all}
use wb_test_task.Kafka.{KafkaSearchEvent, Message, to_aggregator_event}
use wb_test_task.Kafka.Decoder.{decode}
use wb_test_task.Kafka.Consumer.{
  Consumer, fetch_failed, Outcome, stopped, commit_failed, goes_on, run_round,
}
use wb_test_task.Server.{
  change_reply, Reply, replied, rejected, SearchTrendsHandler, note_stop_list, add_stop_word,
  remove_stop_word, list_stop_words, validate_stop_word_request,
}
use wb_test_task.App.{App, limiter_event, decided, handle_search_event}
use wb_test_task.App.Running.{
  Outside, Delivery, no_message, got, Call, asking_top, adding_word, removing_word, listing_words,
  checking_health, Action, signal, wake, consume, call, grpc_listen, grpc_stop, grpc_return,
  metrics_stop, metrics_return, System, deliver, receive, woken, consumed, serve_call, handler_of,
  act,
}

module _ (u : Unicode) where
  abbrev decided_operations : Delivery → KafkaSearchEvent → Result Decision → List Operation
  decided_operations d event (err e) = []
  decided_operations d event (ok decision) =
      if not decision.allowed
      then drop_event over_limit ∷ []
      else add_event d.add_ctx (to_aggregator_event event) d.now ∷ []

  -- What the handler of events asks of the aggregator.
  unfoldable pub event_operations : Delivery → KafkaSearchEvent → App → List Operation
  unfolding contains allow to_aggregator_event
  event_operations d event app =
      if contains u app.stop_words event.query
      then drop_event stop_word ∷ []
      else decided_operations d event (allow d.limiter_ctx (limiter_event event) app.limiter).1

  decided-perform_all :
      (d : Delivery) (event : KafkaSearchEvent) (app : App) (r : Result Decision)
      → ((decided u d.add_ctx event d.now app r).0.agg
          ≡ perform_all u (decided_operations d event r) app.agg)
        × ((decided u d.add_ctx event d.now app r).0.stop_words ≡ app.stop_words)
  unfolding perform_all perform
  decided-perform_all d event app (err e) = (refl, refl)
  decided-perform_all d event app (ok decision) = elim (Bool-cases (not decision.allowed)) [
    | inl e ↦ rw e (refl, refl)
    | inr e ↦ rw e (refl, refl)
  ]

  handle_search_event-perform_all :
      (d : Delivery) (event : KafkaSearchEvent) (app : App)
      → ((handle_search_event u d.limiter_ctx d.add_ctx event d.now app).0.agg
          ≡ perform_all u (event_operations d event app) app.agg)
        × ((handle_search_event u d.limiter_ctx d.add_ctx event d.now app).0.stop_words
            ≡ app.stop_words)
  unfolding handle_search_event event_operations perform_all perform
  handle_search_event-perform_all d event app =
      elim (Bool-cases (contains u app.stop_words event.query)) [
        | inl e ↦ rw e (refl, refl)
        | inr e ↦
            let (limiter', decision) = allow d.limiter_ctx (limiter_event event) app.limiter in
            rw e (decided-perform_all d event (record app { limiter = limiter' }) decision)
      ]

  -- The change of the stop list that a request asks for, if it is accepted.
  abbrev change_of : (Text → Change) → Reply Text → List Change
  change_of f (rejected s) = []
  change_of f (replied word) = f word ∷ []

  unfoldable pub call_changes : Context → Call → List Change
  unfolding validate_stop_word_request
  call_changes none (adding_word request) = change_of added (validate_stop_word_request u request)
  call_changes none (removing_word request) =
      change_of removed (validate_stop_word_request u request)
  call_changes ctx c = []

  adding-change_all :
      (op done undone : Text) (r : Reply Text) (h : SearchTrendsHandler)
      → (change_reply (add_word u) op done undone r h).0.stop_words
        ≡ change_all u (change_of added r) h.stop_words
  unfolding note_stop_list change_all change
  adding-change_all op done undone (rejected s) h = refl
  adding-change_all op done undone (replied word) h = refl

  removing-change_all :
      (op done undone : Text) (r : Reply Text) (h : SearchTrendsHandler)
      → (change_reply (remove_word u) op done undone r h).0.stop_words
        ≡ change_all u (change_of removed r) h.stop_words
  unfolding note_stop_list change_all change
  removing-change_all op done undone (rejected s) h = refl
  removing-change_all op done undone (replied word) h = refl

module _ (out : Outside) where
  open out use {unicode, unmarshal, parse_time}

  abbrev pub fetch_operations : Message → Delivery → Result KafkaSearchEvent → App → List Operation
  fetch_operations m d (err e) app = []
  fetch_operations m d (ok event) app = event_operations unicode d event app

  -- The calls of the aggregator that a step makes.
  unfoldable pub step_operations : Action → System out → List Operation
  unfolding rebuilds decode event_operations
  step_operations (wake w) s = rebuilds (w ∷ [])
  step_operations (consume (got m d)) s =
      fetch_operations m d (decode unmarshal parse_time m.value) s.app
  step_operations _ s = []

  unfoldable pub operations : List Action → System out → List Operation
  unfolding step_operations act
  operations [] s = []
  operations (a ∷ actions) s = step_operations a s ++ operations actions (act out a s)

  -- The changes of the stop list that a step makes.
  unfoldable pub step_changes : Action → List Change
  unfolding call_changes
  step_changes (call ctx c) = call_changes unicode ctx c
  step_changes _ = []

  unfoldable pub changes : List Action → List Change
  unfolding step_changes
  changes [] = []
  changes (a ∷ actions) = step_changes a ++ changes actions

  serve_call-change_all :
      (ctx : Context) (c : Call) (h : SearchTrendsHandler)
      → (serve_call out ctx c h).stop_words
        ≡ change_all unicode (call_changes unicode ctx c) h.stop_words
  unfolding serve_call call_changes change_all add_stop_word remove_stop_word list_stop_words
      note_stop_list
  serve_call-change_all none (adding_word request) h =
      adding-change_all unicode _ _ _ (validate_stop_word_request unicode request) h
  serve_call-change_all (some e) (adding_word request) h = refl
  serve_call-change_all none (removing_word request) h =
      removing-change_all unicode _ _ _ (validate_stop_word_request unicode request) h
  serve_call-change_all (some e) (removing_word request) h = refl
  serve_call-change_all none (asking_top request) h = refl
  serve_call-change_all (some e) (asking_top request) h = refl
  serve_call-change_all none listing_words h = refl
  serve_call-change_all (some e) listing_words h = refl
  serve_call-change_all none checking_health h = refl
  serve_call-change_all (some e) checking_health h = refl

  woken_app :
      (r : InMemoryAggregator × RunState) (s : System out)
      → (woken out r s).app ≡ record s.app { agg = r.0 }
  woken_app (agg, waiting) s = refl
  woken_app (agg, returned x) s = refl

  consumed_app :
      (r : Consumer × Outcome) (app : App) (s : System out) → (consumed out r app s).app ≡ app
  consumed_app (c, goes_on) app s = refl
  consumed_app (c, stopped) app s = refl
  consumed_app (c, commit_failed e) app s = refl

  deliver-perform_all :
      (m : Message) (d : Delivery) (r : Result KafkaSearchEvent) (app : App)
      → ((deliver out m d r app).0.agg ≡ perform_all unicode (fetch_operations m d r app) app.agg)
        × ((deliver out m d r app).0.stop_words ≡ app.stop_words)
  unfolding perform_all
  deliver-perform_all m d (err e) app = (refl, refl)
  deliver-perform_all m d (ok event) app = handle_search_event-perform_all unicode d event app

  -- The parts after a step.
  pub act-perform_all :
      (a : Action) (s : System out)
      → ((act out a s).app.agg ≡ perform_all unicode (step_operations a s) s.app.agg)
        × ((act out a s).app.stop_words ≡ change_all unicode (step_changes a) s.app.stop_words)
  unfolding act step_operations step_changes perform_all change_all receive
  act-perform_all signal s = (refl, refl)
  act-perform_all (wake w) s =
      let p = woken_app (run (w ∷ []) s.app.agg) s in
      (ap (λ x. x.agg) p ∙ (run-perform_all unicode (w ∷ []) s.app.agg).0, ap (λ x. x.stop_words) p)
  act-perform_all (consume (no_message e pause)) s =
      let p = consumed_app (run_round (fetch_failed e pause) s.consumer) s.app s in
      (ap (λ x. x.agg) p, ap (λ x. x.stop_words) p)
  act-perform_all (consume (got m d)) s =
      let event = decode unmarshal parse_time m.value in
      let (app', round) = deliver out m d event s.app in
      let p = consumed_app (run_round round s.consumer) app' s in
      let (q, r) = deliver-perform_all m d event s.app in
      (ap (λ x. x.agg) p ∙ q, ap (λ x. x.stop_words) p ∙ r)
  act-perform_all (call ctx c) s = (refl, serve_call-change_all ctx c (handler_of out s))
  act-perform_all (grpc_listen none) s = (refl, refl)
  act-perform_all (grpc_listen (some e)) s = (refl, refl)
  act-perform_all grpc_stop s = (refl, refl)
  act-perform_all (grpc_return x) s = (refl, refl)
  act-perform_all metrics_stop s = (refl, refl)
  act-perform_all (metrics_return x) s = (refl, refl)
