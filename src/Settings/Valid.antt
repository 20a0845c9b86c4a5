-- ===== src/Settings/Valid.antt =====
-- What Validate promises to the components that the program makes from the settings.
use wb_test_task.Runtime.{Duration}
use wb_test_task.Base.Int.{ℤ, pos, negsuc, floor_mod}
use wb_test_task.Base.Word.{int64_mod, int64_sign}
use wb_test_task.Base.{ℕ, ltb, if◌then◌else◌, ◌-◌, ◌+◌, ◌*◌, ◌≡◌, Bool, true, false, none, arith}
use wb_test_task.Base.Int.{ℤ}
use wb_test_task.Kafka.Reader.{
  ReaderSettings, ReaderResult, reader, parse_start_offset, new_kafka_reader,
}
use wb_test_task.Settings.{Settings, KafkaConfig, validate}

-- An int64 from its bits.
abbrev signed64 : ℕ → ℤ
signed64 w = if ltb w int64_sign then pos w else negsuc (int64_mod - 1 - w)

-- n * 10 ^ 6
abbrev million_times : ℤ → ℤ
million_times (pos n) = pos (n * 1000000)
million_times (negsuc n) = negsuc (n * 1000000 + 999999)

-- time.Duration(n) * time.Millisecond, which wraps around at 64 bits
unfoldable pub milliseconds : ℤ → Duration
unfolding floor_mod
milliseconds n = signed64 (floor_mod (million_times n) int64_mod)

-- The settings of the reader as cmd/app/main.go takes them from the configuration.
abbrev pub reader_settings : KafkaConfig → ReaderSettings
reader_settings c = record {
  brokers = c.brokers;
  topic = c.topic;
  group_id = c.group_id;
  min_bytes = c.min_bytes;
  max_bytes = c.max_bytes;
  max_wait = milliseconds c.max_wait_ms;
  commit_interval = milliseconds c.commit_interval_ms;
}

abbrev pub is_reader : ReaderResult → Bool
is_reader (reader s o) = true
is_reader _ = false

-- A configuration that Validate accepts gives the consumer a reader: no check of newKafkaReader
-- refuses it.
pub validate-reader :
    (c : Settings)
    → validate c ≡ none
    → is_reader (new_kafka_reader (reader_settings c.kafka) c.kafka.start_offset) ≡ true
unfolding validate new_kafka_reader parse_start_offset
validate-reader c e = ground arith
