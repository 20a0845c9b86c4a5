-- ===== src/Kafka.antt =====
-- internal/kafka: the data that the decoder and the consumer share.
pub mod Decoder
pub mod WellFormed
pub mod Reader
pub mod Consumer
pub mod New
pub mod Commits
pub mod Rounds
pub mod Retries
pub mod Runs
use wb_test_task.Base.{ℕ, Option, List}
use wb_test_task.Base.Text.{Text}
use wb_test_task.Runtime.{Time, Duration}
use wb_test_task.Aggregator.Types.{SearchEvent}

-- KafkaSearchEvent
pub record KafkaSearchEvent : Type 0 where
  pub event_id : Text
  pub query : Text
  pub user_id : Text
  pub session_id : Text
  pub ip : Text
  pub user_agent : Text
  pub timestamp : Time

-- ToAggregatorEvent
unfoldable pub to_aggregator_event : KafkaSearchEvent → SearchEvent
to_aggregator_event e = record {
  query = e.query;
  user_id = e.user_id;
  session_id = e.session_id;
  ip = e.ip;
  timestamp = e.timestamp;
}

-- The fields of kafka.Message that the consumer reads.
pub record Message : Type 0 where
  pub partition : ℕ
  pub offset : ℕ
  pub value : Text
