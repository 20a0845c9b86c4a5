-- ===== src/Metrics/Noted.antt =====
-- The series that the consumer of Kafka counts in.
use wb_test_task.Base.{
  ℕ, zero, suc, ◌+◌, refl, Bool, true, false, Option, none, some, List, [], ◌∷◌, All, inl, inr,
  Bool-cases,
}
use wb_test_task.Base.Int.{pos_part}
use wb_test_task.Base.Text.{codes}
use wb_test_task.Runtime.{
  Context, Error, context, empty_query, query_too_long, invalid_timestamp, event_from_future, other,
  decode_failed, validation_failed, Result, ok, err, is_context_error,
}
use wb_test_task.Aggregator.{is_validation_error}
use wb_test_task.Kafka.{KafkaSearchEvent, Message}
use wb_test_task.Kafka.Consumer.{
  KafkaCall, kafka_message, processing_duration, decode_error, commit_error, read_error,
  last_message_timestamp, Consumer, Answers, Round, fetch_failed, fetched, note_call,
  decoding_failed, handler_answered, process_message, commit_loop, commit_with_retry, Outcome,
  stopped, commit_failed, goes_on, run_round, run, processed_outcome, commit_outcome,
  process_decoded, after_failure,
}
use wb_test_task.Metrics.{prime_labels}
use wb_test_task.Metrics.Primed.{IsSeries, AllOf, samples_of, IsPrimed}

note_call-IsPrimed :
    (call : KafkaCall) (c : Consumer)
    → All IsSeries (samples_of call)
    → IsPrimed c
    → IsPrimed (note_call call c)
unfolding note_call
note_call-IsPrimed call c h k = noted c.metrics k
  where
    noted :
        (m : Option (List KafkaCall))
        → AllOf (λ call. All IsSeries (samples_of call)) m
        → AllOf
            (λ call. All IsSeries (samples_of call))
            (elim m [ none ↦ none | some calls ↦ some (call ∷ calls) ])
    noted none k = tt
    noted (some calls) k = (h, k)

message_received : All IsSeries (samples_of (kafka_message (codes "received")))
unfolding samples_of prime_labels
message_received = (inl refl, tt)

message_processed : All IsSeries (samples_of (kafka_message (codes "processed")))
unfolding samples_of prime_labels
message_processed = (inr (inl refl), tt)

message_invalid : All IsSeries (samples_of (kafka_message (codes "invalid")))
unfolding samples_of prime_labels
message_invalid = (inr (inr (inl refl)), tt)

message_failed : All IsSeries (samples_of (kafka_message (codes "failed")))
unfolding samples_of prime_labels
message_failed = (inr (inr (inr (inl refl))), tt)

invalid-IsPrimed :
    (c : Consumer) → IsPrimed c → IsPrimed (note_call (kafka_message (codes "invalid")) c)
invalid-IsPrimed c h = note_call-IsPrimed (kafka_message (codes "invalid")) c message_invalid h

failed-IsPrimed :
    (c : Consumer) → IsPrimed c → IsPrimed (note_call (kafka_message (codes "failed")) c)
failed-IsPrimed c h = note_call-IsPrimed (kafka_message (codes "failed")) c message_failed h

decoding_failed-IsPrimed :
    (e : Error) (c : Consumer) → IsPrimed c → IsPrimed (decoding_failed e c).0
unfolding decoding_failed samples_of
decoding_failed-IsPrimed decode_failed c h =
    invalid-IsPrimed (note_call decode_error c) (note_call-IsPrimed decode_error c (tt, tt) h)
decoding_failed-IsPrimed (validation_failed why) c h = invalid-IsPrimed c h
decoding_failed-IsPrimed (context e) c h = failed-IsPrimed c h
decoding_failed-IsPrimed empty_query c h = failed-IsPrimed c h
decoding_failed-IsPrimed query_too_long c h = failed-IsPrimed c h
decoding_failed-IsPrimed invalid_timestamp c h = failed-IsPrimed c h
decoding_failed-IsPrimed event_from_future c h = failed-IsPrimed c h
decoding_failed-IsPrimed (other n) c h = failed-IsPrimed c h

handler_answered-IsPrimed :
    (answer : Option Error) (c : Consumer) → IsPrimed c → IsPrimed (handler_answered answer c).0
unfolding handler_answered
handler_answered-IsPrimed none c h =
    note_call-IsPrimed (kafka_message (codes "processed")) c message_processed h
handler_answered-IsPrimed (some e) c h = elim (Bool-cases (is_validation_error e)) [
  | inl p ↦ rw p (invalid-IsPrimed c h)
  | inr p ↦ rw p (failed-IsPrimed c h)
]

process_decoded-IsPrimed :
    (d : Result KafkaSearchEvent) (answer : Option Error) (c : Consumer)
    → IsPrimed c
    → IsPrimed (process_decoded d answer c).0
unfolding samples_of
process_decoded-IsPrimed (err e) answer c h = decoding_failed-IsPrimed e c h
process_decoded-IsPrimed (ok event) answer c h =
    let seen = note_call (last_message_timestamp event.timestamp) c in
    handler_answered-IsPrimed answer (record seen { handled = event ∷ c.handled })
      (note_call-IsPrimed (last_message_timestamp event.timestamp) c (tt, tt) h)

process_message-IsPrimed :
    (a : Answers) (c : Consumer) → IsPrimed c → IsPrimed (process_message a c).0
unfolding process_message samples_of
process_message-IsPrimed a c h =
    note_call-IsPrimed (processing_duration a.elapsed)
      ((process_decoded a.decoded a.handled_with c).0) (tt, tt)
      (process_decoded-IsPrimed a.decoded a.handled_with c h)

commit_failed-IsPrimed :
    (c : Consumer)
    → IsPrimed c
    → IsPrimed (note_call (kafka_message (codes "failed")) (note_call commit_error c))
unfolding samples_of
commit_failed-IsPrimed c h =
    failed-IsPrimed (note_call commit_error c) (note_call-IsPrimed commit_error c (tt, tt) h)

after_failure-IsPrimed :
    (e : Error) (pause : Context) (c : Consumer) (rest : Consumer × Option Error)
    → IsPrimed c
    → IsPrimed rest.0
    → IsPrimed (after_failure e pause c rest).0
after_failure-IsPrimed e none c rest h k = elim (Bool-cases (is_context_error e)) [
  | inl p ↦ rw p h
  | inr p ↦ rw p k
]
after_failure-IsPrimed e (some stop) c rest h k = elim (Bool-cases (is_context_error e)) [
  | inl p ↦ rw p h
  | inr p ↦ rw p (commit_failed-IsPrimed c h)
]

commit_loop-IsPrimed :
    (commit : ℕ → Option Error × Context) (message : Message) (left attempt : ℕ)
    (last : Option Error) (c : Consumer)
    → IsPrimed c
    → IsPrimed (commit_loop commit message left attempt last c).0
unfolding commit_loop
commit_loop-IsPrimed commit message zero attempt last c h = h
commit_loop-IsPrimed commit message (suc left) attempt last c h =
    attempted ((commit attempt).0) (λ e.
      commit_loop-IsPrimed commit message left (attempt + 1) (some e) failed
        (commit_failed-IsPrimed c h))
  where
    failed : Consumer
    failed = note_call (kafka_message (codes "failed")) (note_call commit_error c)

    rest : Error → Consumer × Option Error
    rest e = commit_loop commit message left (attempt + 1) (some e) failed

    attempted :
        (answer : Option Error)
        → ((e : Error) → IsPrimed (rest e).0)
        → IsPrimed
            (elim answer as (λ _. Consumer × Option Error) [
              | none ↦ (record c { committed = message ∷ c.committed }, none)
              | some e ↦ after_failure e ((commit attempt).1) c (rest e)
            ]).0
    attempted none k = h
    attempted (some e) k = after_failure-IsPrimed e ((commit attempt).1) c (rest e) h (k e)

commit_outcome-IsPrimed :
    (s : Consumer × Option Error) → IsPrimed s.0 → IsPrimed (commit_outcome s).0
commit_outcome-IsPrimed (c, none) h = h
commit_outcome-IsPrimed (c, some e) h = h

commit_with_retry-IsPrimed :
    (commit : ℕ → Option Error × Context) (message : Message) (c : Consumer)
    → IsPrimed c
    → IsPrimed (commit_outcome (commit_with_retry commit message c)).0
unfolding commit_with_retry
commit_with_retry-IsPrimed commit message c h =
    commit_outcome-IsPrimed (commit_loop commit message (pos_part c.commit_retries) 1 none c)
      (commit_loop-IsPrimed commit message (pos_part c.commit_retries) 1 none c h)

processed_outcome-IsPrimed :
    (commit : ℕ → Option Error × Context) (message : Message) (s : Consumer × Bool × Option Error)
    → IsPrimed s.0
    → IsPrimed (processed_outcome commit message s).0
processed_outcome-IsPrimed commit message (c, false, none) h = h
processed_outcome-IsPrimed commit message (c, true, none) h =
    commit_with_retry-IsPrimed commit message c h
processed_outcome-IsPrimed commit message (c, asked, some e) h =
    elim (Bool-cases (is_context_error e)) [
      | inl p ↦ rw p h
      | inr p ↦ elim (Bool-cases asked) [
        | inl q ↦ rw (p, q) (commit_with_retry-IsPrimed commit message c h)
        | inr q ↦ rw (p, q) h
      ]
    ]

run_round-IsPrimed : (r : Round) (c : Consumer) → IsPrimed c → IsPrimed (run_round r c).0
unfolding run_round samples_of
run_round-IsPrimed (fetch_failed e pause) c h = elim (Bool-cases (is_context_error e)) [
  | inl p ↦ rw p h
  | inr p ↦
      rw p (failed-IsPrimed (note_call read_error c) (note_call-IsPrimed read_error c (tt, tt) h))
]
run_round-IsPrimed (fetched message a) c h =
    let received = note_call (kafka_message (codes "received")) c in
    processed_outcome-IsPrimed a.commit message (process_message a received) (
      process_message-IsPrimed a received
        (note_call-IsPrimed (kafka_message (codes "received")) c message_received h))

-- Every counter that a run of the consumer adds to has no labels or is a series that New makes in
-- advance, if that holds of what the consumer did before.
pub run-IsPrimed : (rounds : List Round) (c : Consumer) → IsPrimed c → IsPrimed (run rounds c).0
unfolding run
run-IsPrimed [] c h = h
run-IsPrimed (r ∷ rounds) c h =
    went_on (run_round r c) (run_round-IsPrimed r c h) (λ d k. run-IsPrimed rounds d k)
  where
    went_on :
        (s : Consumer × Outcome)
        → IsPrimed s.0
        → ((d : Consumer) → IsPrimed d → IsPrimed (run rounds d).0)
        → IsPrimed
            (elim s.1 as (λ _. Consumer × Outcome) [
              | stopped ↦ (s.0, stopped)
              | commit_failed e ↦ (s.0, commit_failed e)
              | goes_on ↦ run rounds s.0
            ]).0
    went_on (d, stopped) h later = h
    went_on (d, commit_failed e) h later = h
    went_on (d, goes_on) h later = later d h
