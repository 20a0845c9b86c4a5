-- ===== src/App/Start.antt =====
-- run of cmd/app/main.go: how the program is put together from its configuration, with newLogger.
-- The
-- parsing of the flags is left out.
use wb_test_task.Base.{true, ◌||◌, Option, none, some, [], ◌++◌, if◌then◌else◌}
use wb_test_task.Base.Text.{Text, codes, same_text}
use wb_test_task.Runtime.{Error, Time}
use wb_test_task.Unicode.{Unicode}
use wb_test_task.Metrics.Prometheus.{
  Client, Registering, RegisterResult, done, failed, RegisterError,
}
use wb_test_task.Metrics.{Metrics, new_metrics, set_stop_list_size_to}
use wb_test_task.Aggregator.Types.{Config}
use wb_test_task.Aggregator.{NewError, NewResult, created, refused, new}
use wb_test_task.Stoplist.{new_manager, size}
use wb_test_task.Antispam.{LimiterConfig, new_limiter}
use wb_test_task.Kafka.Consumer.{Consumer}
use wb_test_task.Kafka.New.{ConsumerResult, consuming, new_kafka_consumer}
use wb_test_task.Server.Grpc.{GrpcServer, Made, made, not_made, ServerProblem, new_grpc_server}
use wb_test_task.Server.Exposition.{MetricsServer, new_metrics_server}
use wb_test_task.Settings.{Settings, AggregatorConfig, AntiSpamConfig}
use wb_test_task.Settings.Load.{Sources, LoadResult, loaded, load_config}
use wb_test_task.Settings.Valid.{reader_settings}
use wb_test_task.App.{App}

-- What run gives to the aggregator and to the limiter.
abbrev pub aggregator_config : AggregatorConfig → Config
aggregator_config c = record {
  window = c.window;
  bucket_size = c.bucket_size;
  default_limit = c.default_limit;
  max_limit = c.max_limit;
  top_refresh_interval = c.top_refresh_interval;
  max_query_runes = c.max_query_runes;
  allowed_future_skew = c.allowed_future_skew;
  metrics = some [];
}

abbrev pub limiter_config : AntiSpamConfig → LimiterConfig
limiter_config c = record {
  enabled = c.enabled;
  max_events_per_identity_per_minute = c.max_events_per_identity_per_minute;
  max_same_query_per_identity_per_window = c.max_same_query_per_identity_per_window;
}

-- newLogger, with the errors of zap.NewDevelopment and zap.NewProduction
unfoldable pub new_logger : Option Error → Option Error → Text → Option Error
unfolding same_text
new_logger development production env =
    if same_text env (codes "local") || same_text env (codes "dev") then development else production

module _ (prometheus : Client) where
  -- The parts of the program once they are made.
  pub record Program : Type 0 where
    pub app : App
    pub consumer : Consumer
    pub grpc_server : GrpcServer
    pub metrics_server : MetricsServer
    pub metrics : Metrics prometheus

  pub data StartResult : Type 0 where
    started : Program → StartResult
    not_loaded : LoadResult → StartResult
    no_logger : Error → StartResult
    no_metrics : RegisterError → StartResult
    no_aggregator : NewError → StartResult
    no_consumer : ConsumerResult → StartResult
    no_grpc_server : ServerProblem → StartResult

  abbrev pub with_grpc_server :
      Settings → App → Consumer → Metrics prometheus → Made GrpcServer → StartResult
  with_grpc_server c app consumer m (not_made problem) = no_grpc_server problem
  with_grpc_server c app consumer m (made server) = started (record {
    app = app;
    consumer = consumer;
    grpc_server = server;
    metrics_server = new_metrics_server c.metrics.host c.metrics.port c.metrics.path;
    metrics = m;
  })

  abbrev pub with_consumer : Settings → App → Metrics prometheus → ConsumerResult → StartResult
  with_consumer c app m (consuming consumer) = with_grpc_server c app consumer m (
      new_grpc_server c.grpc_addr
        (record {
          top_provider = some app.agg;
          stop_words = some app.stop_words;
          metrics = some [];
        })
        true)
  with_consumer c app m refusal = no_consumer refusal

  abbrev pub with_aggregator : Unicode → Settings → Metrics prometheus → NewResult → StartResult
  with_aggregator u c m (refused problem) = no_aggregator problem
  with_aggregator u c m (created agg) =
      let words = new_manager u c.initial_words in
      let app : App = record {
        stop_words = words;
        limiter = new_limiter (limiter_config c.anti_spam) (some []);
        agg = agg;
      } in
      let m' = record m { samples = set_stop_list_size_to (size words) ++ m.samples } in
      with_consumer c app m' (
        new_kafka_consumer (reader_settings c.kafka) c.kafka.start_offset true true
          c.kafka.commit_retries c.kafka.retry_backoff)

  abbrev pub with_metrics :
      Unicode → Time → Settings → RegisterResult (Metrics prometheus) → StartResult
  with_metrics u now c (failed problem) = no_metrics problem
  with_metrics u now c (done m) = with_aggregator u c m (new (aggregator_config c.aggregator) now)

  abbrev pub with_logger :
      Unicode → Registering prometheus → Time → Settings → Option Error → StartResult
  with_logger u registry now c (some e) = no_logger e
  with_logger u registry now c none =
      with_metrics u now c (new_metrics prometheus (some registry)).1

  abbrev pub with_settings :
      Unicode → (Text → Option Error) → Registering prometheus → Time → LoadResult → StartResult
  with_settings u logger_error registry now (loaded c) =
      with_logger u registry now c (logger_error c.app.env)
  with_settings u logger_error registry now refusal = not_loaded refusal

  -- run as far as the goroutines, with the flag, the errors of zap.NewDevelopment and
  -- zap.NewProduction, the new registry and the time
  unfoldable pub start :
      Unicode
      → Sources
      → Text
      → Option Error
      → Option Error
      → Registering prometheus
      → Time
      → StartResult
  unfolding new_logger
  start u sources path development production registry now =
      with_settings u (new_logger development production) registry now (load_config sources path)
