-- ===== src/Kafka/New.antt =====
-- NewConsumer and NewConsumerWithReader of internal/kafka/consumer.go, and Close.
use wb_test_task.Base.{Bool, true, not, Option, if◌then◌else◌}
use wb_test_task.Base.Int.{ℤ}
use wb_test_task.Base.Text.{Text}
use wb_test_task.Runtime.{Error, Duration}
use wb_test_task.Kafka.Reader.{ReaderSettings, ReaderResult, reader, new_kafka_reader}
use wb_test_task.Kafka.Consumer.{Consumer, new_consumer}

pub data ConsumerResult : Type 0 where
  consuming : Consumer → ConsumerResult
  reader_refused : ReaderResult → ConsumerResult
  reader_missing decoder_missing logger_missing handler_missing : ConsumerResult

-- NewConsumerWithReader: the first arguments are whether the reader, the decoder, the logger and the
-- handler are there
unfoldable pub new_consumer_with_reader :
    Bool → Bool → Bool → Bool → Bool → ℤ → Duration → ConsumerResult
unfolding new_consumer
new_consumer_with_reader has_reader has_decoder has_logger has_handler has_metrics retries backoff =
    if not has_reader
    then reader_missing
    else if not has_decoder
    then decoder_missing
    else if not has_logger
    then logger_missing
    else if not has_handler
    then handler_missing
    else consuming (new_consumer has_metrics retries backoff)

abbrev pub with_kafka_reader : ReaderResult → Bool → Bool → ℤ → Duration → ConsumerResult
with_kafka_reader (reader s o) has_handler has_metrics retries backoff =
    new_consumer_with_reader true true true has_handler has_metrics retries backoff
with_kafka_reader refusal has_handler has_metrics retries backoff = reader_refused refusal

-- NewConsumer, with a logger
unfoldable pub new_kafka_consumer :
    ReaderSettings → Text → Bool → Bool → ℤ → Duration → ConsumerResult
unfolding new_kafka_reader new_consumer_with_reader
new_kafka_consumer cfg start_offset has_handler has_metrics retries backoff =
    with_kafka_reader (new_kafka_reader cfg start_offset) has_handler has_metrics retries backoff

-- Close, with what the reader's Close answers
unfoldable pub close_consumer : Option Error → Option Error
close_consumer answer = answer
