-- ===== src/Kafka/Decoder.antt =====
-- internal/kafka/decoder.go. What json.Unmarshal makes of the payload, and time.Parse of a text, are
-- parameters: none is an error.
use wb_test_task.Base.{Option, none, some, if◌then◌else◌}
use wb_test_task.Base.Text.{Text, codes}
use wb_test_task.Runtime.{decode_failed, validation_failed, Result, ok, err, Time}
use wb_test_task.Unicode.{trim_space}
use wb_test_task.Normalizer.{is_empty}
use wb_test_task.Kafka.{KafkaSearchEvent}

pub record RawSearchEvent : Type 0 where
  pub event_id : Text
  pub query : Text
  pub user_id : Text
  pub session_id : Text
  pub ip : Text
  pub user_agent : Text
  pub timestamp : Text

abbrev pub invalid : Text → Result KafkaSearchEvent
invalid why = err (validation_failed why)

module _ (unmarshal : Text → Option RawSearchEvent) (parse_time : Text → Option Time) where
  -- the event, once its time has been parsed
  abbrev pub decode_time : RawSearchEvent → Option Time → Result KafkaSearchEvent
  decode_time raw none = invalid (codes "timestamp must be RFC3339")
  decode_time raw (some timestamp) = ok (record {
    event_id = trim_space raw.event_id;
    query = raw.query;
    user_id = trim_space raw.user_id;
    session_id = trim_space raw.session_id;
    ip = trim_space raw.ip;
    user_agent = trim_space raw.user_agent;
    timestamp = timestamp;
  })

  abbrev pub decode_raw : Option RawSearchEvent → Result KafkaSearchEvent
  decode_raw none = err decode_failed
  decode_raw (some raw) =
      if is_empty (trim_space raw.event_id)
      then invalid (codes "event_id is required")
      else if is_empty (trim_space raw.query)
      then invalid (codes "query is required")
      else if is_empty (trim_space raw.timestamp)
      then invalid (codes "timestamp is required")
      else decode_time raw (parse_time (trim_space raw.timestamp))

  -- Decode
  unfoldable pub decode : Text → Result KafkaSearchEvent
  unfolding trim_space
  decode payload = decode_raw (unmarshal payload)
