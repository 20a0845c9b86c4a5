-- ===== src/Kafka/Reader.antt =====
-- newKafkaReader and parseStartOffset of internal/kafka/consumer.go. The reader itself is of the Kafka
-- client: the model stops at the settings it is made with.
use wb_test_task.Base.{◌||◌, ◌==◌, Option, none, some, List, length, if◌then◌else◌}
use wb_test_task.Base.Int.{ℤ, pos, leb_ℤ}
use wb_test_task.Base.Text.{Text, codes, same_text}
use wb_test_task.Runtime.{Duration}
use wb_test_task.Normalizer.{is_empty}

pub data StartOffset : Type 0 where
  last_offset first_offset : StartOffset

pub record ReaderSettings : Type 0 where
  pub brokers : List Text
  pub topic : Text
  pub group_id : Text
  pub min_bytes : ℤ
  pub max_bytes : ℤ
  pub max_wait : Duration
  pub commit_interval : Duration

pub data ReaderResult : Type 0 where
  reader : ReaderSettings → StartOffset → ReaderResult
  brokers_required topic_required group_required : ReaderResult
  unsupported_offset : Text → ReaderResult

-- parseStartOffset
unfoldable pub parse_start_offset : Text → Option StartOffset
unfolding same_text
parse_start_offset value =
    if is_empty value || same_text value (codes "latest")
    then some last_offset
    else if same_text value (codes "earliest") || same_text value (codes "first")
    then some first_offset
    else none

abbrev with_offset : ReaderSettings → Text → Option StartOffset → ReaderResult
with_offset settings value none = unsupported_offset value
with_offset settings value (some offset) = reader settings offset

abbrev or_positive : ℤ → ℤ → ℤ
or_positive value default = if leb_ℤ value (pos 0) then default else value

-- newKafkaReader
unfoldable pub new_kafka_reader : ReaderSettings → Text → ReaderResult
unfolding parse_start_offset
new_kafka_reader cfg start_offset =
    if length cfg.brokers == 0
    then brokers_required
    else if is_empty cfg.topic
    then topic_required
    else if is_empty cfg.group_id
    then group_required
    else with_offset
        (record cfg {
          min_bytes = or_positive cfg.min_bytes (pos 1);
          max_bytes = or_positive cfg.max_bytes (pos 10485760);
          max_wait = or_positive cfg.max_wait (pos 1000000000);
        })
        start_offset (parse_start_offset start_offset)
