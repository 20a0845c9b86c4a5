-- ===== src/App/Running.antt =====
-- The goroutines of run in cmd/app/main.go as steps on one state. A wakeup of the aggregator, a round of
-- the consumer and a request is one step each: the calls that it makes hold one lock each, of different
-- parts, so that the steps of other goroutines between two of them can be put before or after it.
mod Actions
pub mod Parts
pub mod Composed
pub mod Delivered
pub mod Quiet
pub mod Stops
pub mod Failures
pub mod Waits
pub mod Observed
pub use Actions.*
use wb_test_task.Base.{
  ℕ, ◌≡◌, Bool, true, false, ◌||◌, Option, none, some, List, [], ◌∷◌, ◌⊎◌, if◌then◌else◌,
}
use wb_test_task.Base.Text.{Text}
use wb_test_task.Runtime.{Context, canceled, Error, Result, ok, err, Time, Duration}
use wb_test_task.Unicode.{Unicode}
use wb_test_task.Aggregator.Types.{InMemoryAggregator}
use wb_test_task.Aggregator.{Wakeup, context_done, tick, RunState, returned, waiting, run}
use wb_test_task.Kafka.{KafkaSearchEvent, Message}
use wb_test_task.Kafka.Decoder.{RawSearchEvent, decode}
use wb_test_task.Kafka.Consumer.{
  Consumer, Answers, Round, fetch_failed, fetched, Outcome, stopped, commit_failed, goes_on,
  run_round,
}
use wb_test_task.Server.{
  StopListCall, SearchTrendsHandler, add_stop_word, remove_stop_word, list_stop_words,
}
use wb_test_task.Server.Grpc.{Served, serve_failed, served_without_error, grpc_run, is_given}
use wb_test_task.Server.Exposition.{Listened, listen_failed, metrics_run}
use wb_test_task.App.{App, handle_search_event}
use wb_test_task.App.Group.{ErrGroup}

module _ (out : Outside) where
  open out use {unicode, unmarshal, parse_time, errgroup}
  open errgroup use {Group, with_context, finish, failure, is_canceled}

  -- The state that the goroutines share, where each of them is, and whether a signal has come.
  pub record System : Type 0 where
    pub app : App
    pub handler_calls : Option (List StopListCall)
    pub consumer : Consumer
    pub aggregator_thread : Worker
    pub consumer_thread : Worker
    pub grpc_thread : GrpcThread
    pub metrics_thread : MetricsThread
    pub group : Group
    pub signaled : Bool

  -- the calls of group.Go
  abbrev pub launch : App → Consumer → System
  launch app consumer = record {
    app = app;
    handler_calls = some [];
    consumer = consumer;
    aggregator_thread = running;
    consumer_thread = running;
    grpc_thread = grpc_starting;
    metrics_thread = metrics_serving;
    group = with_context;
    signaled = false;
  }

  -- Whether groupCtx is done, by a signal or by the group.
  abbrev pub is_done_context : System → Bool
  is_done_context s = s.signaled || is_canceled s.group

  -- What a look at groupCtx can answer: a look that a step makes early can come before the end of the
  -- context.
  abbrev pub Sees : System → Context → Type 0
  Sees s none = Unit
  Sees s (some e) = (e ≡ canceled) × (is_done_context s ≡ true)

  -- the decoder and the handler, on a message that was fetched
  abbrev pub deliver : Message → Delivery → Result KafkaSearchEvent → App → App × Round
  deliver m d (err e) app = (app, fetched m (answers_to d (err e) none))
  deliver m d (ok event) app =
      let (app', answer) = handle_search_event unicode d.limiter_ctx d.add_ctx event d.now app in
      (app', fetched m (answers_to d (ok event) answer))

  unfoldable pub receive : Fetch → App → App × Round
  unfolding decode handle_search_event
  receive (no_message e pause) app = (app, fetch_failed e pause)
  receive (got m d) app = deliver m d (decode unmarshal parse_time m.value) app

  abbrev pub woken : InMemoryAggregator × RunState → System → System
  woken (agg, waiting) s = record s { app = record s.app { agg = agg } }
  woken (agg, returned r) s = record s {
    app = record s.app { agg = agg };
    aggregator_thread = ended r;
    group = finish r s.group;
  }

  abbrev pub consumed : Consumer × Outcome → App → System → System
  consumed (c, goes_on) app s = record s { app = app; consumer = c }
  consumed (c, stopped) app s = record s {
    app = app;
    consumer = c;
    consumer_thread = ended none;
    group = finish none s.group;
  }
  consumed (c, commit_failed e) app s = record s {
    app = app;
    consumer = c;
    consumer_thread = ended (some e);
    group = finish (some e) s.group;
  }

  -- The handlers of the service; GetTop and HealthCheck change nothing.
  unfoldable pub serve_call : Context → Call → SearchTrendsHandler → SearchTrendsHandler
  unfolding add_stop_word remove_stop_word list_stop_words
  serve_call ctx (asking_top request) h = h
  serve_call ctx (adding_word request) h = (add_stop_word unicode ctx request h).0
  serve_call ctx (removing_word request) h = (remove_stop_word unicode ctx request h).0
  serve_call ctx listing_words h = (list_stop_words ctx h).0
  serve_call ctx checking_health h = h

  -- the handler of the service in a state: its stop list is that of the handler of events
  abbrev pub handler_of : System → SearchTrendsHandler
  handler_of s = record { stop_words = s.app.stop_words; metrics = s.handler_calls }

  abbrev pub called : SearchTrendsHandler → System → System
  called h s = record s {
    app = record s.app { stop_words = h.stop_words };
    handler_calls = h.metrics;
  }

  abbrev grpc_returned : Option Error → System → System
  grpc_returned r s = record s { grpc_thread = grpc_ended r; group = finish r s.group }

  abbrev metrics_returned : Option Error → System → System
  metrics_returned r s = record s { metrics_thread = metrics_ended r; group = finish r s.group }

  -- main, when all goroutines have returned: run answers with the error of Wait, if there is one.
  abbrev pub exit_code : System → ℕ
  exit_code s = if is_given (failure s.group) then 1 else 0

  -- One step of the program.
  unfoldable pub act : Action → System → System
  unfolding run receive run_round serve_call grpc_run metrics_run
  act signal s = record s { signaled = true }
  act (wake w) s = woken (run (w ∷ []) s.app.agg) s
  act (consume f) s =
      let (app', round) = receive f s.app in consumed (run_round round s.consumer) app' s
  act (call ctx c) s = called (serve_call ctx c (handler_of s)) s
  act (grpc_listen none) s = record s { grpc_thread = grpc_serving }
  act (grpc_listen (some e)) s = grpc_returned (grpc_run (some e) served_without_error) s
  act grpc_stop s = record s { grpc_thread = grpc_stopping }
  act (grpc_return x) s = grpc_returned (grpc_run none x) s
  act metrics_stop s = record s { metrics_thread = metrics_stopping }
  act (metrics_return x) s = metrics_returned (metrics_run x) s

  -- Serve and ListenAndServe return without having been stopped only with an error of their own.
  abbrev pub IsServeFailure : Served → Type 0
  IsServeFailure x = (e : Error) × (x ≡ serve_failed e)

  abbrev pub IsListenFailure : Listened → Type 0
  IsListenFailure x = (e : Error) × (x ≡ listen_failed e)

  -- When a step can be taken. That MetricsServer.Handler panics for the path /healthz is no step.
  abbrev pub IsEnabled : Action → System → Type 0
  IsEnabled signal s = Unit
  IsEnabled (wake context_done) s = (s.aggregator_thread ≡ running) × (is_done_context s ≡ true)
  IsEnabled (wake (tick ctx now elapsed)) s = (s.aggregator_thread ≡ running) × Sees s ctx
  IsEnabled (consume (no_message e pause)) s = (s.consumer_thread ≡ running) × Sees s pause
  IsEnabled (consume (got m d)) s =
      (s.consumer_thread ≡ running)
      × Sees s d.limiter_ctx
      × Sees s d.add_ctx
      × ((attempt : ℕ) → Sees s (d.commit attempt).1)
  IsEnabled (call ctx c) s = (s.grpc_thread ≡ grpc_serving) ⊎ (s.grpc_thread ≡ grpc_stopping)
  IsEnabled (grpc_listen answer) s = s.grpc_thread ≡ grpc_starting
  IsEnabled grpc_stop s = (s.grpc_thread ≡ grpc_serving) × (is_done_context s ≡ true)
  IsEnabled (grpc_return x) s =
      ((s.grpc_thread ≡ grpc_serving) × IsServeFailure x) ⊎ (s.grpc_thread ≡ grpc_stopping)
  IsEnabled metrics_stop s = (s.metrics_thread ≡ metrics_serving) × (is_done_context s ≡ true)
  IsEnabled (metrics_return x) s =
      ((s.metrics_thread ≡ metrics_serving) × IsListenFailure x)
      ⊎ (s.metrics_thread ≡ metrics_stopping)

  -- The steps of an interleaving, the first one first.
  pub data Reaches : System → List Action → System → Type 0 where
    at_once : {s : System} → Reaches s [] s
    after :
        {s t : System} {actions : List Action} (a : Action)
        → IsEnabled a s
        → Reaches (act a s) actions t
        → Reaches s (a ∷ actions) t
