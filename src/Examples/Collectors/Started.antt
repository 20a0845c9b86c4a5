-- ===== src/Examples/Collectors/Started.antt =====
-- A program that has started.
use wb_test_task.Base.{◌≡◌, refl, ap, ◌∙◌, ◌⊎◌, true, false, Option, none, some, [], ◌∷◌, ◌++◌}
use wb_test_task.Base.Text.{codes}
use wb_test_task.Runtime.{Error}
use wb_test_task.Metrics.Prometheus.{done}
use wb_test_task.Metrics.{set_stop_list_size_to}
use wb_test_task.Aggregator.Types.{InMemoryAggregator}
use wb_test_task.Aggregator.{NewResult, created, refused, new}
use wb_test_task.Aggregator.Top.{build_top}
use wb_test_task.Stoplist.{new_manager, size, contains}
use wb_test_task.Stoplist.Words.{settled, among}
use wb_test_task.Antispam.{new_limiter}
use wb_test_task.Kafka.{Message}
use wb_test_task.Kafka.Consumer.{new_consumer}
use wb_test_task.Kafka.New.{new_kafka_consumer}
use wb_test_task.Server.Grpc.{GrpcServer, Made, made, not_made, new_grpc_server}
use wb_test_task.Server.Exposition.{new_metrics_server}
use wb_test_task.Settings.{Settings, default_config}
use wb_test_task.Settings.Load.{loaded, load_config}
use wb_test_task.App.{App}
use wb_test_task.App.Start.{
  Program, started, aggregator_config, limiter_config, with_metrics, with_logger, with_settings,
  new_logger, start,
}
use wb_test_task.App.Running.{grpc_listen, System, ended, launch, act, Reaches, at_once, after}
use wb_test_task.App.Running.Parts.{changes}
use wb_test_task.App.Running.Delivered.{fetched_messages}
use wb_test_task.App.Whole.{started-Reaches}
use wb_test_task.Examples.Ascii.{ascii}
use wb_test_task.Examples.Windows.{second_100, fresh}
use wb_test_task.Examples.Goroutines.{outside}
use wb_test_task.Examples.Collectors.{
  listed, empty, all_made, one_broker, one_file, one_file_loaded, logger_made, first_metrics,
}

abbrev agg_of : NewResult → InMemoryAggregator
agg_of (created agg) = agg
agg_of (refused problem) = fresh

abbrev no_server : GrpcServer
no_server = record { address = []; has_interceptor = false; services = [] }

abbrev server_of : Made GrpcServer → GrpcServer
server_of (made server) = server
server_of (not_made problem) = no_server

abbrev first_app : App
first_app = record {
  stop_words = new_manager ascii one_broker.initial_words;
  limiter = new_limiter (limiter_config one_broker.anti_spam) (some []);
  agg = agg_of (new (aggregator_config one_broker.aggregator) second_100);
}

abbrev program : Program listed
program = record {
  app = first_app;
  consumer = new_consumer true one_broker.kafka.commit_retries one_broker.kafka.retry_backoff;
  grpc_server = server_of (
      new_grpc_server one_broker.grpc_addr
        (record {
          top_provider = some first_app.agg;
          stop_words = some first_app.stop_words;
          metrics = some [];
        })
        true);
  metrics_server =
      new_metrics_server one_broker.metrics.host one_broker.metrics.port one_broker.metrics.path;
  metrics = record all_made {
    samples = set_stop_list_size_to (size first_app.stop_words) ++ all_made.samples;
  };
}

with_metrics_started :
    with_metrics listed ascii second_100 one_broker (done all_made) ≡ started program
unfolding new new_kafka_consumer new_grpc_server default_config
with_metrics_started = refl

program_started : start listed ascii one_file [] none none empty second_100 ≡ started program
unfolding start
program_started =
    ap (with_settings listed ascii (new_logger none none) empty second_100) one_file_loaded
    ∙ ap (with_logger listed ascii empty second_100 one_broker) logger_made
    ∙ ap (with_metrics listed ascii second_100 one_broker) first_metrics
    ∙ with_metrics_started

-- The server of gRPC listens.
abbrev listening : System outside
listening = act outside (grpc_listen none) (launch outside program.app program.consumer)

listening-Reaches :
    Reaches outside (launch outside program.app program.consumer) (grpc_listen none ∷ []) listening
listening-Reaches = after (grpc_listen none) refl at_once

started-Reaches_example :
    (c : Settings) × (load_config one_file [] ≡ loaded c)
    × ((listening.consumer.committed ≡ fetched_messages (grpc_listen none ∷ []) [])
        ⊎ (((r : Option Error) × (listening.consumer_thread ≡ ended r))
            × ((m : Message) × (m ∷ listening.consumer.committed
                  ≡ fetched_messages (grpc_listen none ∷ []) []))))
    × (contains ascii listening.app.stop_words (codes "spam")
        ≡ settled ascii
            (changes outside (grpc_listen none ∷ []))
            (codes "spam")
            (among ascii c.initial_words (codes "spam")))
    × ((listening.app.agg.dirty ≡ true)
        ⊎ (listening.app.agg.top_cache
            ≡ build_top listening.app.agg.counters listening.app.agg.cfg.max_limit))
started-Reaches_example =
    started-Reaches listed outside program one_file [] none none empty second_100
      (grpc_listen none ∷ []) listening (codes "spam") program_started listening-Reaches
