-- ===== src/Settings.antt =====
-- internal/config/config.go: the Config, its defaults and Validate. Reading the file and the
-- environment is left out.
pub mod Valid
pub mod Load
use wb_test_task.Base.{
  ℕ, Bool, true, false, ◌&&◌, not, ◌==◌, Option, none, some, List, [], ◌∷◌, length, if◌then◌else◌,
}
use wb_test_task.Base.Int.{ℤ, pos, leb_ℤ, ltb_ℤ}
use wb_test_task.Base.Text.{Text, codes, same_text}
use wb_test_task.Runtime.{Duration}
use wb_test_task.Normalizer.{is_empty}

pub record AppConfig : Type 0 where
  pub env : Text
  pub shutdown_timeout : Duration

pub record MetricsConfig : Type 0 where
  pub host : Text
  pub port : ℤ
  pub path : Text

pub record KafkaConfig : Type 0 where
  pub brokers : List Text
  pub topic : Text
  pub group_id : Text
  pub client_id : Text
  pub min_bytes : ℤ
  pub max_bytes : ℤ
  pub max_wait_ms : ℤ
  pub commit_interval_ms : ℤ
  pub start_offset : Text
  pub commit_retries : ℤ
  pub retry_backoff : Duration

pub record AggregatorConfig : Type 0 where
  pub window : Duration
  pub bucket_size : Duration
  pub default_limit : ℤ
  pub max_limit : ℤ
  pub top_refresh_interval : Duration
  pub max_query_runes : ℤ
  pub allowed_future_skew : Duration

pub record AntiSpamConfig : Type 0 where
  pub enabled : Bool
  pub max_events_per_identity_per_minute : ℤ
  pub max_same_query_per_identity_per_window : ℤ

pub record Settings : Type 0 where
  pub app : AppConfig
  pub grpc_addr : Text
  pub metrics : MetricsConfig
  pub kafka : KafkaConfig
  pub aggregator : AggregatorConfig
  pub initial_words : List Text
  pub anti_spam : AntiSpamConfig

pub data Problem : Type 0 where
  grpc_addr_required host_required port_not_positive path_required : Problem
  brokers_required topic_required group_id_required min_bytes_not_positive max_bytes_too_small :
      Problem
  max_wait_not_positive commit_interval_negative start_offset_unknown : Problem
  window_not_positive bucket_size_not_positive default_limit_not_positive max_limit_too_small :
      Problem

abbrev unless : Bool → Problem → Option Problem → Option Problem
unless failed problem rest = if failed then some problem else rest

abbrev validate_aggregator : AggregatorConfig → Option Problem
validate_aggregator c = unless (leb_ℤ c.window (pos 0)) window_not_positive (
    unless (leb_ℤ c.bucket_size (pos 0)) bucket_size_not_positive (
      unless (leb_ℤ c.default_limit (pos 0)) default_limit_not_positive
        (unless (ltb_ℤ c.max_limit c.default_limit) max_limit_too_small none)))

abbrev validate_kafka : KafkaConfig → Option Problem → Option Problem
validate_kafka c rest = unless (length c.brokers == 0) brokers_required (
    unless (is_empty c.topic) topic_required (
      unless (is_empty c.group_id) group_id_required (
        unless (leb_ℤ c.min_bytes (pos 0)) min_bytes_not_positive (
          unless (ltb_ℤ c.max_bytes c.min_bytes) max_bytes_too_small (
            unless (leb_ℤ c.max_wait_ms (pos 0)) max_wait_not_positive (
              unless (ltb_ℤ c.commit_interval_ms (pos 0)) commit_interval_negative (
                unless
                  (not (same_text c.start_offset (codes "latest"))
                    && not (same_text c.start_offset (codes "earliest"))
                    && not (same_text c.start_offset (codes "first")))
                  start_offset_unknown rest)))))))

-- Validate: the first problem
unfoldable pub validate : Settings → Option Problem
unfolding same_text
validate c = unless (is_empty c.grpc_addr) grpc_addr_required (
    unless (is_empty c.metrics.host) host_required (
      unless (leb_ℤ c.metrics.port (pos 0)) port_not_positive (
        unless (is_empty c.metrics.path) path_required
          (validate_kafka c.kafka (validate_aggregator c.aggregator)))))

abbrev second : ℕ
second = 1000000000

-- defaultConfig
unfoldable pub default_config : Settings
default_config = record {
  app = record { env = codes "local"; shutdown_timeout = pos 10000000000 };
  grpc_addr = codes ":9090";
  metrics = record { host = codes "0.0.0.0"; port = pos 2112; path = codes "/metrics" };
  kafka = record {
    brokers = [];
    topic = codes "search-events";
    group_id = codes "search-trends-service";
    client_id = codes "search-trends-service";
    min_bytes = pos 1;
    max_bytes = pos 10485760;
    max_wait_ms = pos 1000;
    commit_interval_ms = pos 0;
    start_offset = codes "latest";
    commit_retries = pos 3;
    retry_backoff = pos 500000000;
  };
  aggregator = record {
    window = pos 300000000000;
    bucket_size = pos second;
    default_limit = pos 10;
    max_limit = pos 100;
    top_refresh_interval = pos 500000000;
    max_query_runes = pos 256;
    allowed_future_skew = pos 5000000000;
  };
  initial_words = [];
  anti_spam = record {
    enabled = false;
    max_events_per_identity_per_minute = pos 0;
    max_same_query_per_identity_per_window = pos 0;
  };
}
