-- ===== src/App/Whole.antt =====
-- The program from its start on: what run has made, and what its goroutines do with it.
use wb_test_task.Base.{◌≡◌, refl, sym, ap, ◌∙◌, true, Option, none, some, List, [], ◌∷◌, ◌⊎◌, subst}
use wb_test_task.Base.Text.{Text}
use wb_test_task.Runtime.{Error, Time, Duration}
use wb_test_task.Base.Int.{ℤ}
use wb_test_task.Unicode.{Unicode}
use wb_test_task.Metrics.Prometheus.{Client, Registering, RegisterResult, done, failed}
use wb_test_task.Metrics.{Metrics}
use wb_test_task.Aggregator.{NewResult, created, refused, new}
use wb_test_task.Stoplist.{new_manager, contains}
use wb_test_task.Stoplist.Words.{settled, among}
use wb_test_task.Kafka.{Message}
use wb_test_task.Kafka.Reader.{
  ReaderResult, reader, brokers_required, topic_required, group_required, unsupported_offset,
  new_kafka_reader,
}
use wb_test_task.Kafka.Consumer.{Consumer, new_consumer}
use wb_test_task.Kafka.New.{
  ConsumerResult, consuming, reader_refused, reader_missing, decoder_missing, logger_missing,
  handler_missing, with_kafka_reader, new_consumer_with_reader, new_kafka_consumer,
}
use wb_test_task.Server.Grpc.{GrpcServer, Made, made, not_made}
use wb_test_task.Settings.{Settings}
use wb_test_task.Settings.Load.{Sources, LoadResult, loaded, load_config}
use wb_test_task.Settings.Valid.{reader_settings}
use wb_test_task.App.{App}
use wb_test_task.App.Start.{
  Program, StartResult, started, aggregator_config, with_grpc_server, with_consumer,
  with_aggregator, with_metrics, with_logger, with_settings, new_logger, start,
}
use wb_test_task.Settings.Load.{unreadable, unparsable, invalid}
use wb_test_task.Aggregator.Top.{build_top}
use wb_test_task.App.Running.{Outside, Action, ended, System, launch, Reaches}
use wb_test_task.App.Running.Parts.{changes}
use wb_test_task.App.Running.Composed.{Reaches-contains, Reaches-IsFresh}
use wb_test_task.App.Running.Delivered.{fetched_messages, Reaches-committed}

with_reader-eq-consuming :
    (r : ReaderResult) (retries : ℤ) (backoff : Duration) (consumer : Consumer)
    → with_kafka_reader r true true retries backoff ≡ consuming consumer
    → new_consumer true retries backoff ≡ consumer
unfolding new_consumer_with_reader
with_reader-eq-consuming (reader s o) retries backoff consumer h = cc
with_reader-eq-consuming brokers_required retries backoff consumer h = cc
with_reader-eq-consuming topic_required retries backoff consumer h = cc
with_reader-eq-consuming group_required retries backoff consumer h = cc
with_reader-eq-consuming (unsupported_offset value) retries backoff consumer h = cc

new_kafka_consumer-eq-consuming :
    (c : Settings) (consumer : Consumer)
    → new_kafka_consumer
        (reader_settings c.kafka)
        c.kafka.start_offset
        true
        true
        c.kafka.commit_retries
        c.kafka.retry_backoff
      ≡ consuming consumer
    → new_consumer true c.kafka.commit_retries c.kafka.retry_backoff ≡ consumer
unfolding new_kafka_consumer
new_kafka_consumer-eq-consuming c consumer h =
    with_reader-eq-consuming (new_kafka_reader (reader_settings c.kafka) c.kafka.start_offset)
      c.kafka.commit_retries c.kafka.retry_backoff consumer h

module _ (prometheus : Client) (u : Unicode) (p : Program prometheus) where
  abbrev program_of : StartResult prometheus → Program prometheus
  program_of (started q) = q
  program_of _ = p

  made_parts :
      (c : Settings) (app : App) (consumer : Consumer) (m : Metrics prometheus)
      (server : Made GrpcServer)
      → with_grpc_server prometheus c app consumer m server ≡ started p
      → (app ≡ p.app) × (consumer ≡ p.consumer)
  made_parts c app consumer m (made server) h =
      (ap (λ x. (program_of x).app) h, ap (λ x. (program_of x).consumer) h)
  made_parts c app consumer m (not_made problem) h = cc

  consumer_parts :
      (c : Settings) (app : App) (m : Metrics prometheus) (r : ConsumerResult)
      → with_consumer prometheus c app m r ≡ started p
      → (app ≡ p.app) × (r ≡ consuming p.consumer)
  consumer_parts c app m (consuming consumer) h =
      let (x, y) = made_parts c app consumer m _ h in (x, ap consuming y)
  consumer_parts c app m (reader_refused r) h = cc
  consumer_parts c app m reader_missing h = cc
  consumer_parts c app m decoder_missing h = cc
  consumer_parts c app m logger_missing h = cc
  consumer_parts c app m handler_missing h = cc

  -- How the parts of the program come from its settings.
  record IsMadeOf (c : Settings) (now : Time) : Type 0 where
    aggregator : new (aggregator_config c.aggregator) now ≡ created p.app.agg
    words : new_manager u c.initial_words ≡ p.app.stop_words
    consumer : new_consumer true c.kafka.commit_retries c.kafka.retry_backoff ≡ p.consumer

  aggregator_parts :
      (c : Settings) (now : Time) (m : Metrics prometheus) (r : NewResult)
      → new (aggregator_config c.aggregator) now ≡ r
      → with_aggregator prometheus u c m r ≡ started p
      → IsMadeOf c now
  aggregator_parts c now m (refused problem) e h = cc
  aggregator_parts c now m (created agg) e h =
      let (x, y) = consumer_parts c _ _ _ h in
      record {
        aggregator = e ∙ ap (λ a. created a.agg) x;
        words = ap (λ a. a.stop_words) x;
        consumer = new_kafka_consumer-eq-consuming c p.consumer y;
      }

  metrics_parts :
      (c : Settings) (now : Time) (r : RegisterResult (Metrics prometheus))
      → with_metrics prometheus u now c r ≡ started p
      → IsMadeOf c now
  metrics_parts c now (failed problem) h = cc
  metrics_parts c now (done m) h = aggregator_parts c now m _ refl h

  logger_parts :
      (registry : Registering prometheus) (c : Settings) (now : Time) (r : Option Error)
      → with_logger prometheus u registry now c r ≡ started p
      → IsMadeOf c now
  logger_parts registry c now (some e) h = cc
  logger_parts registry c now none h = metrics_parts c now _ h

  settings_parts :
      (logger_error : Text → Option Error) (registry : Registering prometheus) (now : Time)
      (r : LoadResult)
      → with_settings prometheus u logger_error registry now r ≡ started p
      → (c : Settings) × (r ≡ loaded c) × IsMadeOf c now
  settings_parts logger_error registry now (loaded c) h = (c, refl, logger_parts registry c now _ h)
  settings_parts logger_error registry now (unreadable path e) h = cc
  settings_parts logger_error registry now (unparsable path e) h = cc
  settings_parts logger_error registry now (invalid problem) h = cc

module _ (prometheus : Client) (out : Outside) (p : Program prometheus) where
  open out use {unicode}

  -- Once the program has started, in any interleaving of its goroutines: the messages that it has
  -- committed are all that it has fetched, each once and in order, but for the last one when the
  -- consumer has returned; a word is a stop word by the last accepted request about its normal form, and
  -- if there is none, by the list of the configuration that Load has given; and the list of top queries
  -- is the one that buildTop gives of the counters, unless the aggregator is marked as changed.
  pub started-Reaches :
      (sources : Sources) (path : Text) (development production : Option Error)
      (registry : Registering prometheus) (now : Time) (actions : List Action) (t : System out)
      (v : Text)
      → start prometheus unicode sources path development production registry now ≡ started p
      → Reaches out (launch out p.app p.consumer) actions t
      → (c : Settings) × (load_config sources path ≡ loaded c)
        × ((t.consumer.committed ≡ fetched_messages actions [])
            ⊎ (((r : Option Error) × (t.consumer_thread ≡ ended r))
                × ((m : Message) × (m ∷ t.consumer.committed ≡ fetched_messages actions []))))
        × (contains unicode t.app.stop_words v
            ≡ settled unicode (changes out actions) v (among unicode c.initial_words v))
        × ((t.app.agg.dirty ≡ true)
            ⊎ (t.app.agg.top_cache ≡ build_top t.app.agg.counters t.app.agg.cfg.max_limit))
  unfolding start
  started-Reaches sources path development production registry now actions t v h r =
      let (c, l, made_of) =
        settings_parts prometheus unicode p (new_logger development production) registry now
          (load_config sources path) h in
      let same = made_of.consumer in
      (
        c,
        l,
        Reaches-committed out p.app true c.kafka.commit_retries c.kafka.retry_backoff actions t
            (subst (λ x. Reaches out (launch out p.app x) actions t) (sym same) r),
        Reaches-contains out p.app p.consumer actions t c.initial_words v (sym made_of.words) r,
        Reaches-IsFresh out p.app p.consumer actions t (aggregator_config c.aggregator) now
            made_of.aggregator r,
      )
