-- ===== src/Examples/Consumers.antt =====
-- The consumer of Kafka, the settings and the handler of events.
use wb_test_task.Kafka.Retries.{IsRetried, commit_with_retry-none}
use wb_test_task.Metrics.Primed.{IsPrimed}
use wb_test_task.Metrics.Noted.{run-IsPrimed}
use wb_test_task.Base.{
  ◌≢◌, ◌⊎◌, ℕ, ◌≡◌, ◌≤◌, ◌<◌, subst, sym, refl, List, [], ◌∷◌, Option, none, some, length, take,
  arith, ◌==◌, if◌then◌else◌,
}
use wb_test_task.Base.Int.{pos}
use wb_test_task.Base.Text.{codes}
use wb_test_task.Runtime.{Context, Error, decode_failed, other, ok, err, is_context_error}
use wb_test_task.Kafka.{KafkaSearchEvent, Message}
use wb_test_task.Kafka.Consumer.{
  Consumer, Answers, Round, fetch_failed, fetched, commit_with_retry, goes_on, run,
}
use wb_test_task.Kafka.Commits.{done_messages}
use wb_test_task.Kafka.Runs.{run-committed}
use wb_test_task.Settings.{Settings, default_config, validate}

abbrev idle : Consumer
idle = record {
  metrics = none;
  commit_retries = pos 3;
  retry_backoff = pos 500000000;
  handled = [];
  committed = [];
}

abbrev tea_event : KafkaSearchEvent
tea_event = record {
  event_id = codes "1";
  query = codes "tea";
  user_id = [];
  session_id = [];
  ip = [];
  user_agent = [];
  timestamp = pos 62135596900000000000;
}

abbrev message : ℕ → Message
message n = record { partition = 0; offset = n; value = codes "{}" }

-- The second attempt succeeds.
abbrev second_attempt : ℕ → Option Error × Context
second_attempt i = if i == 1 then (some (other 7), none) else (none, none)

abbrev taken : Answers
taken = record {
  decoded = ok tea_event;
  handled_with = none;
  elapsed = pos 1;
  commit = second_attempt;
}

abbrev broken : Answers
broken = record taken { handled_with = some (other 1) }

abbrev malformed : Answers
malformed = record taken { decoded = err decode_failed }

abbrev four_rounds : List Round
four_rounds =
    fetched (message 0) taken
    ∷ fetch_failed (other 2) none
    ∷ fetched (message 1) broken
    ∷ fetched (message 2) malformed
    ∷ []

two_committed : (run four_rounds idle).0.committed ≡ message 2 ∷ message 0 ∷ []
unfolding run
two_committed = refl

run-committed_example :
    (done : ℕ) × (done ≤ length four_rounds)
    × ((run four_rounds idle).0.committed ≡ done_messages (take done four_rounds) [])
    × (((run four_rounds idle).1 ≢ goes_on) ⊎ (done ≡ length four_rounds))
run-committed_example = run-committed four_rounds idle (omega arith)

abbrev one_broker : Settings
one_broker = record default_config {
  kafka = record default_config.kafka { brokers = codes "kafka:9092" ∷ [] };
}

one_broker_valid : validate one_broker ≡ none
unfolding validate default_config
one_broker_valid = refl

abbrev measured : Consumer
measured = record idle { metrics = some [] }

run-IsPrimed_example : IsPrimed (run four_rounds measured).0
run-IsPrimed_example = run-IsPrimed four_rounds measured tt

commit_with_retry-none_example :
    ((commit_with_retry second_attempt (message 0) idle).1 ≡ none)
    × ((commit_with_retry second_attempt (message 0) idle).0.committed ≡ message 0 ∷ [])
unfolding is_context_error
commit_with_retry-none_example =
    commit_with_retry-none second_attempt (message 0) idle 2 (omega arith) (omega arith) refl
      retried
  where
    retried : (k : ℕ) → 1 ≤ k → k < 2 → IsRetried (second_attempt k)
    retried k p q =
        let first : k ≡ 1 = omega arith in
        subst (λ i. IsRetried (second_attempt i)) (sym first) (refl, refl)
