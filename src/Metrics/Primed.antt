-- ===== src/Metrics/Primed.antt =====
-- The series that New makes in advance, and what the calls of the consumer do to them.
use wb_test_task.Base.{◌≡◌, Option, none, some, List, [], ◌∷◌, All, ◌⊎◌}
use wb_test_task.Kafka.Consumer.{
  KafkaCall, kafka_message, processing_duration, decode_error, commit_error, read_error,
  last_message_timestamp, Consumer,
}
use wb_test_task.Metrics.{
  Sample, touch, inc, observe_kafka_message, observe_kafka_processing_duration,
  set_kafka_last_message_timestamp, inc_kafka_decode_error, inc_kafka_commit_error,
  inc_kafka_read_error, prime_labels,
}

abbrev pub Among : Sample → List Sample → Type 0
Among x [] = ⊥
Among x (y ∷ l) = (x ≡ y) ⊎ Among x l

-- The counter with these label values is there from the start: it has no labels, or primeLabels has
-- touched the series.
abbrev pub IsSeries : Sample → Type 0
IsSeries (inc field (label ∷ labels)) = Among (touch field (label ∷ labels)) prime_labels
IsSeries _ = Unit

abbrev pub AllOf {ℓ} : {A : Type ℓ} → (A → Type 0) → Option (List A) → Type 0
AllOf P none = Unit
AllOf P (some calls) = All P calls

-- What the consumer's calls do to the metrics.
unfoldable pub samples_of : KafkaCall → List Sample
unfolding observe_kafka_message observe_kafka_processing_duration set_kafka_last_message_timestamp
    inc_kafka_decode_error inc_kafka_commit_error inc_kafka_read_error
samples_of (kafka_message status) = observe_kafka_message status
samples_of (processing_duration d) = observe_kafka_processing_duration d
samples_of (last_message_timestamp t) = set_kafka_last_message_timestamp t
samples_of decode_error = inc_kafka_decode_error
samples_of commit_error = inc_kafka_commit_error
samples_of read_error = inc_kafka_read_error

abbrev pub IsPrimed : Consumer → Type 0
IsPrimed c = AllOf (λ call. All IsSeries (samples_of call)) c.metrics
