-- ===== src/Metrics.antt =====
-- internal/metrics/metrics.go: the collectors, their registration by New, and the methods of Metrics.
-- The client library of Prometheus is a parameter. What a method does to a collector is a sample; the
-- buckets of the histograms are left to the client library.
pub mod Prometheus
pub mod Again
pub mod Primed
pub mod Noted
pub mod Counted
use wb_test_task.Base.{ℕ, ◌+◌, Bool, Option, some, none, List, [], ◌∷◌, ◌++◌}
use wb_test_task.Base.Int.{ℤ, pos}
use wb_test_task.Base.Text.{Text, codes}
use wb_test_task.Runtime.{Result, ok, err, Time, Duration, unix_seconds}
use wb_test_task.Metrics.Prometheus.{
  Kind, counter, counter_vec, gauge, histogram, histogram_vec, Desc, Spec, Client, Registering,
  RegisterResult, done, failed, registry_required, register_spec,
}

-- The fields of Metrics.
pub data Field : Type 0 where
  kafka_messages kafka_processing_duration kafka_last_message_timestamp : Field
  kafka_decode_errors kafka_commit_errors kafka_read_errors : Field
  events_total unique_queries top_cache_size top_rebuild_duration top_rebuild_total : Field
  window_buckets_total current_window_seconds : Field
  grpc_requests grpc_request_duration : Field
  stop_list_size stop_list_operations : Field
  anti_spam_checks anti_spam_active_keys : Field

abbrev define : Kind → Text → Text → List Text → Spec
define kind name help labels = record {
  kind = kind;
  desc = record { name = codes "search_trends_" ++ name; help = help; labels = labels };
}

-- The options of the collectors, in the order of New.
unfoldable pub definitions : List (Field × Spec)
definitions =
    (
      kafka_messages,
      define counter_vec (codes "kafka_messages_total")
          (codes "Total number of Kafka messages by processing status.") (codes "status" ∷ []),
    )
    ∷ (
      kafka_processing_duration,
      define histogram (codes "kafka_processing_duration_seconds")
          (codes "Kafka message processing duration in seconds.") [],
    )
    ∷ (
      kafka_last_message_timestamp,
      define gauge (codes "kafka_last_message_timestamp_seconds")
          (codes "Unix timestamp of the last successfully decoded Kafka event.") [],
    )
    ∷ (
      kafka_decode_errors,
      define counter (codes "kafka_decode_errors_total")
          (codes "Total number of Kafka payload decode errors.") [],
    )
    ∷ (
      kafka_commit_errors,
      define counter (codes "kafka_commit_errors_total")
          (codes "Total number of Kafka commit errors.") [],
    )
    ∷ (
      kafka_read_errors,
      define counter (codes "kafka_read_errors_total") (codes "Total number of Kafka read errors.")
          [],
    )
    ∷ (
      events_total,
      define counter_vec (codes "events_total")
          (codes "Total number of search events by business processing status.")
          (codes "status" ∷ []),
    )
    ∷ (
      unique_queries,
      define gauge (codes "unique_queries")
          (codes "Current number of unique queries in the aggregation window.") [],
    )
    ∷ (
      top_cache_size,
      define gauge (codes "top_cache_size")
          (codes "Current number of items in the cached Top-N snapshot.") [],
    )
    ∷ (
      top_rebuild_duration,
      define histogram (codes "top_rebuild_duration_seconds")
          (codes "Top cache rebuild duration in seconds.") [],
    )
    ∷ (
      top_rebuild_total,
      define counter_vec (codes "top_rebuild_total")
          (codes "Total number of top cache rebuild attempts by status.") (codes "status" ∷ []),
    )
    ∷ (
      window_buckets_total,
      define gauge (codes "window_buckets_total")
          (codes "Number of buckets in the aggregation window.") [],
    )
    ∷ (
      current_window_seconds,
      define gauge (codes "current_window_seconds")
          (codes "Current aggregation window size in seconds.") [],
    )
    ∷ (
      grpc_requests,
      define counter_vec (codes "grpc_requests_total")
          (codes "Total number of gRPC unary requests by method and status code.")
          (codes "method" ∷ codes "code" ∷ []),
    )
    ∷ (
      grpc_request_duration,
      define histogram_vec (codes "grpc_request_duration_seconds")
          (codes "gRPC unary request duration in seconds.") (codes "method" ∷ []),
    )
    ∷ (
      stop_list_size,
      define gauge (codes "stoplist_size") (codes "Current number of stop-list entries.") [],
    )
    ∷ (
      stop_list_operations,
      define counter_vec (codes "stoplist_operations_total")
          (codes "Total number of stop-list operations by operation and status.")
          (codes "operation" ∷ codes "status" ∷ []),
    )
    ∷ (
      anti_spam_checks,
      define counter_vec (codes "antispam_checks_total")
          (codes "Total number of anti-spam checks by result.") (codes "result" ∷ []),
    )
    ∷ (
      anti_spam_active_keys,
      define gauge (codes "antispam_active_keys")
          (codes "Current number of active actor/query keys in anti-spam state.") [],
    )
    ∷ []

-- What is done to a collector with the given label values: WithLabelValues alone, Inc, Set, Observe.
pub data Sample : Type 0 where
  touch : Field → List Text → Sample
  inc : Field → List Text → Sample
  set_to : Field → ℤ → Sample
  observe_duration : Field → List Text → Duration → Sample

-- The methods of Metrics.
unfoldable pub observe_kafka_message : Text → List Sample
observe_kafka_message status = inc kafka_messages (status ∷ []) ∷ []

unfoldable pub observe_kafka_processing_duration : Duration → List Sample
observe_kafka_processing_duration duration =
    observe_duration kafka_processing_duration [] duration ∷ []

unfoldable pub set_kafka_last_message_timestamp : Time → List Sample
unfolding unix_seconds
set_kafka_last_message_timestamp timestamp =
    set_to kafka_last_message_timestamp (unix_seconds timestamp) ∷ []

unfoldable pub inc_kafka_decode_error : List Sample
inc_kafka_decode_error = inc kafka_decode_errors [] ∷ []

unfoldable pub inc_kafka_commit_error : List Sample
inc_kafka_commit_error = inc kafka_commit_errors [] ∷ []

unfoldable pub inc_kafka_read_error : List Sample
inc_kafka_read_error = inc kafka_read_errors [] ∷ []

unfoldable pub observe_event_status : Text → List Sample
observe_event_status status = inc events_total (status ∷ []) ∷ []

unfoldable pub set_unique_queries_to : ℕ → List Sample
set_unique_queries_to count = set_to unique_queries (pos count) ∷ []

unfoldable pub set_top_cache_size_to : ℕ → List Sample
set_top_cache_size_to count = set_to top_cache_size (pos count) ∷ []

unfoldable pub observe_top_rebuild_status : Text → Duration → List Sample
observe_top_rebuild_status status duration =
    inc top_rebuild_total (status ∷ []) ∷ observe_duration top_rebuild_duration [] duration ∷ []

unfoldable pub set_window_buckets_to : ℕ → List Sample
set_window_buckets_to count = set_to window_buckets_total (pos count) ∷ []

unfoldable pub set_current_window_seconds_to : ℤ → List Sample
set_current_window_seconds_to seconds = set_to current_window_seconds seconds ∷ []

unfoldable pub observe_grpc_request : Text → Text → Duration → List Sample
observe_grpc_request method code duration =
    inc grpc_requests (method ∷ code ∷ [])
    ∷ observe_duration grpc_request_duration (method ∷ []) duration
    ∷ []

unfoldable pub set_stop_list_size_to : ℕ → List Sample
set_stop_list_size_to count = set_to stop_list_size (pos count) ∷ []

unfoldable pub observe_stop_list_operation : Text → Text → List Sample
observe_stop_list_operation operation status =
    inc stop_list_operations (operation ∷ status ∷ []) ∷ []

unfoldable pub observe_anti_spam_check : Text → List Sample
observe_anti_spam_check result = inc anti_spam_checks (result ∷ []) ∷ []

unfoldable pub set_anti_spam_active_keys : ℕ → List Sample
set_anti_spam_active_keys count = set_to anti_spam_active_keys (pos count) ∷ []

abbrev touch_each : Field → List Text → List Sample
touch_each field [] = []
touch_each field (value ∷ values) = touch field (value ∷ []) ∷ touch_each field values

abbrev touch_pair : Field → Text → List Text → List Sample
touch_pair field operation [] = []
touch_pair field operation (status ∷ statuses) =
    touch field (operation ∷ status ∷ []) ∷ touch_pair field operation statuses

abbrev touch_pairs : Field → List Text → List Text → List Sample
touch_pairs field [] statuses = []
touch_pairs field (operation ∷ operations) statuses =
    touch_pair field operation statuses ++ touch_pairs field operations statuses

-- primeLabels
unfoldable pub prime_labels : List Sample
prime_labels =
    touch_each kafka_messages
      (codes "received" ∷ codes "processed" ∷ codes "invalid" ∷ codes "failed" ∷ [])
    ++ (touch_each events_total (
          codes "accepted"
          ∷ codes "rejected"
          ∷ codes "stopped"
          ∷ codes "rate_limited"
          ∷ codes "expired"
          ∷ codes "invalid"
          ∷ [])
        ++ (touch_each top_rebuild_total (codes "success" ∷ codes "failed" ∷ [])
            ++ (touch_pairs stop_list_operations (codes "add" ∷ codes "remove" ∷ codes "list" ∷ [])
                  (codes "success" ∷ codes "failed" ∷ [])
                ++ touch_each anti_spam_checks (codes "allowed" ∷ codes "blocked" ∷ []))))

module _ (prometheus : Client) where
  open prometheus use {Registry, Collector}

  -- The collectors of the fields, and the samples, the first one first.
  pub record Metrics : Type 0 where
    pub collectors : List (Field × Collector)
    pub samples : List Sample

  abbrev pub Assigned : Type 0
  Assigned = Registering prometheus × RegisterResult (List (Field × Collector))

  -- one field more, the first one first
  abbrev pub assigned : Field → Collector → Assigned → Assigned
  assigned field collector (s, failed e) = (s, failed e)
  assigned field collector (s, done fields) = (s, done ((field, collector) ∷ fields))

  abbrev pub assign_next :
      Field
      → Registering prometheus × RegisterResult Collector
      → (Registering prometheus → Assigned)
      → Assigned
  assign_next field (s, failed e) next = (s, failed e)
  assign_next field (s, done collector) next = assigned field collector (next s)

  -- the assignments of New, each of which returns early with its error
  unfoldable pub register_fields : List (Field × Spec) → Registering prometheus → Assigned
  register_fields [] s = (s, done [])
  register_fields ((field, spec) ∷ rest) s =
      assign_next field (register_spec prometheus spec.kind spec.desc s) (register_fields rest)

  abbrev pub primed : Assigned → Registering prometheus × RegisterResult Metrics
  primed (s, failed e) = (s, failed e)
  primed (s, done fields) = (s, done (record { collectors = fields; samples = prime_labels }))

  -- New; a nil registry is `none`
  unfoldable pub new_metrics :
      Option (Registering prometheus) → Option (Registering prometheus) × RegisterResult Metrics
  new_metrics none = (none, failed registry_required)
  new_metrics (some s) =
      let (s', result) = primed (register_fields definitions s) in (some s', result)
