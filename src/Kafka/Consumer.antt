-- ===== src/Kafka/Consumer.antt =====
-- internal/kafka/consumer.go: the Consumer. The reader, the decoder and the handler are interfaces:
-- what they answer in a round of the loop of Run is data of the round. Log lines are left out.
use wb_test_task.Base.{
  ℕ, zero, suc, ◌+◌, Bool, true, false, not, Option, none, some, List, [], ◌∷◌, if◌then◌else◌,
}
use wb_test_task.Base.Int.{ℤ, pos, pos_part, leb_ℤ}
use wb_test_task.Base.Text.{Text, codes}
use wb_test_task.Runtime.{
  Context, Error, context, decode_failed, validation_failed, Result, ok, err, Time, Duration,
  is_context_error,
}
use wb_test_task.Aggregator.{is_validation_error}
use wb_test_task.Kafka.{KafkaSearchEvent, Message}

-- The calls of the metrics.
pub data KafkaCall : Type 0 where
  kafka_message : Text → KafkaCall
  processing_duration : Duration → KafkaCall
  decode_error commit_error read_error : KafkaCall
  last_message_timestamp : Time → KafkaCall

-- The consumer with what it has done to the outside: the calls of the metrics, `none` for nil, the
-- events given to the handler and the messages committed, the last one first.
pub record Consumer : Type 0 where
  pub metrics : Option (List KafkaCall)
  pub commit_retries : ℤ
  pub retry_backoff : Duration
  pub handled : List KafkaSearchEvent
  pub committed : List Message

-- What the interfaces answer to a message: the decoder, the handler, and at each attempt
-- CommitMessages, with what ctx.Err() is when the pause after it ends; and how long it took.
pub record Answers : Type 0 where
  pub decoded : Result KafkaSearchEvent
  pub handled_with : Option Error
  pub elapsed : Duration
  pub commit : ℕ → Option Error × Context

-- What FetchMessage answers: an error, with what ctx.Err() is when the pause after it ends.
pub data Round : Type 0 where
  fetch_failed : Error → Context → Round
  fetched : Message → Answers → Round

abbrev default_commit_retries : ℤ
default_commit_retries = pos 3

abbrev default_retry_backoff : Duration
default_retry_backoff = pos 500000000

-- NewConsumerWithReader, for interfaces that are not nil
unfoldable pub new_consumer : Bool → ℤ → Duration → Consumer
new_consumer has_metrics commit_retries retry_backoff = record {
  metrics = if has_metrics then some [] else none;
  commit_retries = if leb_ℤ commit_retries (pos 0) then default_commit_retries else commit_retries;
  retry_backoff = if leb_ℤ retry_backoff (pos 0) then default_retry_backoff else retry_backoff;
  handled = [];
  committed = [];
}

-- observeKafkaMessage and the other calls of the metrics
unfoldable pub note_call : KafkaCall → Consumer → Consumer
note_call call c = record c {
  metrics = elim c.metrics [ none ↦ none | some calls ↦ some (call ∷ calls) ];
}

abbrev observe_kafka_message : Text → Consumer → Consumer
observe_kafka_message status c = note_call (kafka_message status) c

-- what processMessage does about an error of the decoder
unfoldable pub decoding_failed : Error → Consumer → Consumer × Bool × Option Error
unfolding note_call
decoding_failed decode_failed c =
    (observe_kafka_message (codes "invalid") (note_call decode_error c), true, none)
decoding_failed (validation_failed why) c = (observe_kafka_message (codes "invalid") c, true, none)
decoding_failed e c = (observe_kafka_message (codes "failed") c, false, some e)

-- what processMessage does about the answer of the handler
unfoldable pub handler_answered : Option Error → Consumer → Consumer × Bool × Option Error
unfolding note_call is_validation_error
handler_answered none c = (observe_kafka_message (codes "processed") c, true, none)
handler_answered (some e) c =
    if is_validation_error e
    then (observe_kafka_message (codes "invalid") c, true, none)
    else (observe_kafka_message (codes "failed") c, false, some e)

abbrev pub process_decoded :
    Result KafkaSearchEvent → Option Error → Consumer → Consumer × Bool × Option Error
process_decoded (err e) answer c = decoding_failed e c
process_decoded (ok event) answer c =
    let seen = note_call (last_message_timestamp event.timestamp) c in
    handler_answered answer (record seen { handled = event ∷ c.handled })

-- processMessage: whether to commit, and the error
unfoldable pub process_message : Answers → Consumer → Consumer × Bool × Option Error
unfolding decoding_failed handler_answered note_call
process_message a c =
    let (d, should_commit, failure) = process_decoded a.decoded a.handled_with c in
    (note_call (processing_duration a.elapsed) d, should_commit, failure)

-- one attempt of commitWithRetry that failed, and the pause after it; `rest` is the next attempt
abbrev pub after_failure :
    Error → Context → Consumer → Consumer × Option Error → Consumer × Option Error
after_failure e pause c rest = if is_context_error e then (c, some e) else elim pause [
  | none ↦ rest
  | some stop ↦
      (observe_kafka_message (codes "failed") (note_call commit_error c), some (context stop))
]

-- the loop of commitWithRetry, with the attempts left and the number of the next one
unfoldable pub commit_loop :
    (ℕ → Option Error × Context)
    → Message
    → ℕ
    → ℕ
    → Option Error
    → Consumer
    → Consumer × Option Error
unfolding note_call is_context_error
commit_loop commit message zero attempt last c = (c, last)
commit_loop commit message (suc left) attempt last c =
    let failed = observe_kafka_message (codes "failed") (note_call commit_error c) in
    let answer = commit attempt in
    elim answer.0 [
      | none ↦ (record c { committed = message ∷ c.committed }, none)
      | some e ↦
          after_failure e answer.1 c (commit_loop commit message left (attempt + 1) (some e) failed)
    ]

-- commitWithRetry
unfoldable pub commit_with_retry :
    (ℕ → Option Error × Context) → Message → Consumer → Consumer × Option Error
unfolding commit_loop
commit_with_retry commit message c = commit_loop commit message (pos_part c.commit_retries) 1 none c

-- How a run of the loop ends: nil, the error of the commit, or the loop goes on.
pub data Outcome : Type 0 where
  stopped : Outcome
  commit_failed : Error → Outcome
  goes_on : Outcome

abbrev pub commit_outcome : Consumer × Option Error → Consumer × Outcome
commit_outcome (c, none) = (c, goes_on)
commit_outcome (c, some e) = (c, if is_context_error e then stopped else commit_failed e)

abbrev pub processed_outcome :
    (ℕ → Option Error × Context) → Message → Consumer × Bool × Option Error → Consumer × Outcome
processed_outcome commit message (c, should_commit, some e) =
    if is_context_error e
    then (c, stopped)
    else if not should_commit
    then (c, goes_on)
    else commit_outcome (commit_with_retry commit message c)
processed_outcome commit message (c, should_commit, none) =
    if not should_commit then (c, goes_on) else commit_outcome (commit_with_retry commit message c)

-- one round of the loop of Run
unfoldable pub run_round : Round → Consumer → Consumer × Outcome
unfolding process_message commit_with_retry note_call is_context_error
run_round (fetch_failed e pause) c = if is_context_error e then (c, stopped) else (
  observe_kafka_message (codes "failed") (note_call read_error c),
  elim pause [ none ↦ goes_on | some _ ↦ stopped ],
)
run_round (fetched message a) c =
    processed_outcome a.commit message
      (process_message a (observe_kafka_message (codes "received") c))

-- Run
unfoldable pub run : List Round → Consumer → Consumer × Outcome
unfolding run_round
run [] c = (c, goes_on)
run (round ∷ rounds) c =
    let (d, outcome) = run_round round c in
    elim outcome [
      | stopped ↦ (d, stopped)
      | commit_failed e ↦ (d, commit_failed e)
      | goes_on ↦ run rounds d
    ]
