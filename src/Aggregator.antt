-- ===== src/Aggregator.antt =====
-- internal/aggregator/aggregator.go: New and the methods of InMemoryAggregator. A method takes what
-- ctx.Err() answers and what the clock shows, and returns the new state beside its result. The mutex
-- makes each method one step: the clock is read before the lock is taken.
pub mod Top
pub mod Types
pub mod Buckets
pub mod Ring
pub mod Tally
pub mod Window
pub mod Exact
pub mod Runs
pub mod Serving
pub mod Fresh
pub mod Loop
use wb_test_task.Base.{
  ℕ, Bool, true, false, not, ◌&&◌, ◌||◌, Option, none, some, List, [], ◌∷◌, length, take, replicate,
  ltb, leb, if◌then◌else◌, ◌+◌, ◌-◌, ◌*◌, ◌/◌, ◌%◌, ◌^◌, zero, suc,
}
use wb_test_task.Base.Int.{
  ℤ, pos, negsuc, pos_part, ◌+ℤ◌, ◌-ℤ◌, ltb_ℤ, leb_ℤ, quot, rem, ℤ_discrete,
}
use wb_test_task.Base.Text.{Text, codes}
use wb_test_task.Runtime.{
  Context, ContextError, Error, context, empty_query, query_too_long, invalid_timestamp,
  event_from_future, Result, ok, err, ◌>>=◌, is_context_error, Time, Duration, is_zero_time,
  truncate_time, unix_seconds, nanos_per_second,
}
use wb_test_task.Unicode.{Unicode}
use wb_test_task.Normalizer.{normalize_query, default_max_query_runes}
use wb_test_task.Aggregator.Types.{
  MetricCall, observe_event, set_unique_queries, set_top_cache_size, observe_top_rebuild,
  set_window_buckets, set_current_window_seconds, Metrics, call, Config, SearchEvent, Snapshot,
  Bucket, InMemoryAggregator,
}
use wb_test_task.Aggregator.Top.{TopItem, build_top}
use wb_test_task.Aggregator.Buckets.{bucket_index, expire_buckets, count_event}

pub data NewError : Type 0 where
  window_not_positive window_not_divisible default_limit_not_positive : NewError
  max_limit_too_small bucket_count_not_positive : NewError

pub data NewResult : Type 0 where
  created : InMemoryAggregator → NewResult
  refused : NewError → NewResult

abbrev pub default_bucket_size : Duration
default_bucket_size = pos 1000000000

abbrev pub default_refresh_interval : Duration
default_refresh_interval = pos 500000000

abbrev pub default_future_skew : Duration
default_future_skew = pos 5000000000

-- a setting, or its default if it is not positive
abbrev pub or_default : ℤ → ℤ → ℤ
or_default value default = if leb_ℤ value (pos 0) then default else value

-- IsValidationError
unfoldable pub is_validation_error : Error → Bool
is_validation_error empty_query = true
is_validation_error query_too_long = true
is_validation_error invalid_timestamp = true
is_validation_error event_from_future = true
is_validation_error _ = false

-- The largest power of two that is not above a number below 2 ^ rounds, and 1 for 0.
unfoldable pub leading_power : ℕ → ℕ → ℕ
leading_power zero n = 1
leading_power (suc rounds) n =
    let rest = leading_power rounds (n / 2) in if leb 2 n then 2 * rest else 1

-- int64(d.Seconds()) for d >= 0: the sum of the seconds and of their fraction, as a float64 of 53 bits,
-- is the next second if the fraction is within half a unit of the last bit of it. The number of
-- seconds of an int64 of nanoseconds is below 2 ^ 34.
unfoldable pub rounded_seconds : ℕ → ℕ
unfolding leading_power
rounded_seconds n =
    let seconds = n / nanos_per_second in
    let left = nanos_per_second - n % nanos_per_second in
    if leb (left * 2 ^ 53) (nanos_per_second * leading_power 34 seconds)
    then seconds + 1
    else seconds

-- int64(d.Seconds())
unfoldable pub whole_seconds : Duration → ℤ
unfolding ◌-ℤ◌
whole_seconds (pos n) = pos (rounded_seconds n)
whole_seconds (negsuc n) = pos 0 -ℤ pos (rounded_seconds (suc n))

abbrev pub observe : MetricCall → InMemoryAggregator → InMemoryAggregator
observe c a = record a { metrics = call a.metrics c }

-- setWindowMetrics
unfoldable pub set_window_metrics : InMemoryAggregator → InMemoryAggregator
unfolding whole_seconds
set_window_metrics a = observe (set_unique_queries 0) (
    observe (set_top_cache_size 0) (
      observe (set_current_window_seconds (whole_seconds a.cfg.window))
        (observe (set_window_buckets a.bucket_count) a)))

-- setCounterMetricsLocked
unfoldable pub set_counter_metrics_locked : InMemoryAggregator → InMemoryAggregator
set_counter_metrics_locked a =
    observe (set_top_cache_size (length a.top_cache))
      (observe (set_unique_queries (length a.counters)) a)

-- New at time `now`
unfoldable pub new : Config → Time → NewResult
unfolding set_window_metrics rem quot ◌-ℤ◌
new cfg now =
    let bucket_size = or_default cfg.bucket_size default_bucket_size in
    let settled = record cfg {
      bucket_size = bucket_size;
      top_refresh_interval = or_default cfg.top_refresh_interval default_refresh_interval;
      max_query_runes = or_default cfg.max_query_runes (pos default_max_query_runes);
      allowed_future_skew = or_default cfg.allowed_future_skew default_future_skew;
    } in
    let bucket_count = quot cfg.window (pos_part bucket_size) in
    if leb_ℤ cfg.window (pos 0)
    then refused window_not_positive
    else if ltb 0 (pos_part (rem cfg.window (pos_part bucket_size)))
    then refused window_not_divisible
    else if leb_ℤ cfg.default_limit (pos 0)
    then refused default_limit_not_positive
    else if ltb_ℤ cfg.max_limit cfg.default_limit
    then refused max_limit_too_small
    else if leb_ℤ bucket_count (pos 0)
    then refused bucket_count_not_positive
    else created (
        set_window_metrics (record {
          cfg = settled;
          bucket_count = pos_part bucket_count;
          metrics = cfg.metrics;
          buckets =
              replicate (pos_part bucket_count) (record { unix_second = pos 0; counts = none });
          counters = [];
          top_cache = [];
          top_generated_at = now;
          dirty = false;
        }))

-- validateAndNormalize: `ok none` is an event to ignore
unfoldable pub validate_and_normalize : Unicode → Config → SearchEvent → Time → Result (Option Text)
unfolding ◌+ℤ◌ ◌-ℤ◌ is_zero_time
validate_and_normalize u cfg event now =
    if is_zero_time event.timestamp
    then err invalid_timestamp
    else if ltb_ℤ (now +ℤ cfg.allowed_future_skew) event.timestamp
    then err event_from_future
    else if ltb_ℤ event.timestamp (now -ℤ cfg.window)
    then ok none
    else do query ← normalize_query u event.query cfg.max_query_runes; ok (some query)

-- the second of the bucket of a time
unfoldable pub bucket_second : Config → Time → ℤ
unfolding truncate_time unix_seconds ◌-ℤ◌
bucket_second cfg t = unix_seconds (truncate_time t cfg.bucket_size)

-- cutoffSecond of expireLocked
unfoldable pub cutoff_second : InMemoryAggregator → Time → ℤ
unfolding bucket_second ◌+ℤ◌ ◌-ℤ◌
cutoff_second a now = bucket_second a.cfg now -ℤ pos a.bucket_count +ℤ pos 1

-- expireLocked: the new state, and whether a bucket has expired
unfoldable pub expire_locked : InMemoryAggregator → Time → InMemoryAggregator × Bool
unfolding cutoff_second expire_buckets
expire_locked a now =
    let (buckets', counters', expired) =
      expire_buckets (cutoff_second a now) a.buckets a.counters in
    (record a { buckets = buckets'; counters = counters' }, expired)

-- what Add does under the lock with an accepted query
unfoldable pub add_locked : InMemoryAggregator → ℤ → Text → Time → InMemoryAggregator
unfolding expire_locked bucket_index count_event set_counter_metrics_locked
add_locked a event_second query now =
    let (b, _) = expire_locked a now in
    let index = bucket_index event_second b.bucket_count in
    let (buckets', counters') = count_event event_second query index b.buckets b.counters in
    observe (observe_event (codes "accepted")) (
      set_counter_metrics_locked
        (record b { buckets = buckets'; counters = counters'; dirty = true }))

abbrev pub add_validated :
    InMemoryAggregator
    → SearchEvent
    → Time
    → Result (Option Text)
    → InMemoryAggregator × Option Error
add_validated a event now (err e) = (observe (observe_event (codes "invalid")) a, some e)
add_validated a event now (ok none) = (observe (observe_event (codes "expired")) a, none)
add_validated a event now (ok (some query)) =
    (add_locked a (bucket_second a.cfg event.timestamp) query now, none)

-- Add
unfoldable pub add :
    Unicode → Context → SearchEvent → Time → InMemoryAggregator → InMemoryAggregator × Option Error
unfolding validate_and_normalize normalize_query add_locked bucket_second
add u (some e) event now a = (a, some (context e))
add u none event now a = add_validated a event now (validate_and_normalize u a.cfg event now)

-- normalizeLimit
unfoldable pub normalize_limit : Config → ℤ → ℤ
normalize_limit cfg limit =
    if leb_ℤ limit (pos 0)
    then cfg.default_limit
    else if ltb_ℤ cfg.max_limit limit
    then cfg.max_limit
    else limit

-- GetTop
unfoldable pub get_top : Context → ℤ → InMemoryAggregator → Result (List TopItem × Time)
unfolding normalize_limit
get_top (some e) limit a = err (context e)
get_top none limit a =
    let bound = normalize_limit a.cfg limit in
    let items =
      if ltb_ℤ bound (pos (length a.top_cache))
      then take (pos_part bound) a.top_cache
      else a.top_cache in
    ok (items, a.top_generated_at)

-- RebuildTop under the lock
unfoldable pub rebuild_locked : Time → InMemoryAggregator → InMemoryAggregator
unfolding expire_locked build_top set_counter_metrics_locked
rebuild_locked now a =
    let (b, expired) = expire_locked a now in
    if not b.dirty && not expired
    then set_counter_metrics_locked b
    else set_counter_metrics_locked (record b {
      top_cache = build_top b.counters b.cfg.max_limit;
      top_generated_at = now;
      dirty = false;
    })

-- RebuildTop at time `now`, which takes the time `elapsed`
unfoldable pub rebuild_top :
    Context → Time → Duration → InMemoryAggregator → InMemoryAggregator × Option Error
unfolding rebuild_locked
rebuild_top (some e) now elapsed a =
    (observe (observe_top_rebuild (codes "failed") elapsed) a, some (context e))
rebuild_top none now elapsed a =
    (observe (observe_top_rebuild (codes "success") elapsed) (rebuild_locked now a), none)

-- What the select of Run receives: the end of the context, or a tick, with what RebuildTop sees then.
pub data Wakeup : Type 0 where
  context_done : Wakeup
  tick : Context → Time → Duration → Wakeup

-- Run has returned, or waits for the next wakeup.
pub data RunState : Type 0 where
  returned : Option Error → RunState
  waiting : RunState

-- Run
unfoldable pub run : List Wakeup → InMemoryAggregator → InMemoryAggregator × RunState
unfolding rebuild_top is_context_error
run [] a = (a, waiting)
run (context_done ∷ rest) a = (a, returned none)
run (tick ctx now elapsed ∷ rest) a =
    let (b, failure) = rebuild_top ctx now elapsed a in
    elim failure [
      | none ↦ run rest b
      | some e ↦ if is_context_error e then (b, returned none) else (b, returned (some e))
    ]

-- Snapshot
unfoldable pub snapshot : Context → ℤ → InMemoryAggregator → Result Snapshot
unfolding get_top whole_seconds
snapshot ctx limit a = do
  (items, generated_at) ← get_top ctx limit a
  ok (record {
    items = items;
    generated_at = generated_at;
    window_seconds = whole_seconds a.cfg.window;
  })

-- Close
unfoldable pub close : Context → Option Error
close (some e) = some (context e)
close none = none
