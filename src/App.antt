-- ===== src/App.antt =====
-- cmd/app/main.go: the handler of the events of Kafka, over the stop words, the limiter and the
-- aggregator.
pub mod Errors
pub mod Delivery
pub mod Stopped
pub mod Tallied
pub mod Group
pub mod Running
pub mod Start
pub mod Started
pub mod Whole
use wb_test_task.Base.{Bool, true, false, not, Option, none, some, if◌then◌else◌}
use wb_test_task.Base.Text.{codes}
use wb_test_task.Runtime.{Context, Error, Result, ok, err, Time}
use wb_test_task.Unicode.{Unicode}
use wb_test_task.Aggregator.Types.{observe_event, InMemoryAggregator}
use wb_test_task.Aggregator.{add, is_validation_error, observe}
use wb_test_task.Stoplist.{Manager, contains}
use wb_test_task.Antispam.{LimiterEvent, Decision, InMemoryLimiter, allow}
use wb_test_task.Kafka.{KafkaSearchEvent, to_aggregator_event}

-- What the handler works on. The metrics of the aggregator and the limiter are one object in the
-- program: the calls are kept where they are made, those of the handler with the aggregator's.
pub record App : Type 0 where
  pub stop_words : Manager
  pub limiter : InMemoryLimiter
  pub agg : InMemoryAggregator

abbrev pub limiter_event : KafkaSearchEvent → LimiterEvent
limiter_event e = record {
  event_id = e.event_id;
  query = e.query;
  user_id_hash = e.user_id;
  session_id = e.session_id;
  ip_hash = e.ip;
  timestamp = e.timestamp;
}

-- the error of Add, unless it is of validation
unfoldable pub add_error : Option Error → Option Error
unfolding is_validation_error
add_error none = none
add_error (some e) = if is_validation_error e then none else some e

abbrev pub decided :
    Unicode → Context → KafkaSearchEvent → Time → App → Result Decision → App × Option Error
decided u ctx event now app (err e) = (app, some e)
decided u ctx event now app (ok decision) =
    let (agg', failure) = add u ctx (to_aggregator_event event) now app.agg in
    if not decision.allowed
    then (record app { agg = observe (observe_event (codes "rate_limited")) app.agg }, none)
    else (record app { agg = agg' }, add_error failure)

-- the function given to NewConsumer; the limiter and the aggregator look at the context one after the
-- other
unfoldable pub handle_search_event :
    Unicode → Context → Context → KafkaSearchEvent → Time → App → App × Option Error
unfolding contains allow add add_error to_aggregator_event
handle_search_event u limiter_ctx add_ctx event now app =
    let (limiter', decision) = allow limiter_ctx (limiter_event event) app.limiter in
    if contains u app.stop_words event.query
    then (record app { agg = observe (observe_event (codes "stopped")) app.agg }, none)
    else decided u add_ctx event now (record app { limiter = limiter' }) decision
