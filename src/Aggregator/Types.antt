-- ===== src/Aggregator/Types.antt =====
-- internal/aggregator/types.go, and the state of InMemoryAggregator.
use wb_test_task.Base.{ℕ, Bool, Option, none, some, List, ◌∷◌}
use wb_test_task.Base.Int.{ℤ}
use wb_test_task.Base.Text.{Text}
use wb_test_task.Runtime.{Time, Duration}
use wb_test_task.TextMap.{TextMap}
use wb_test_task.Aggregator.Top.{TopItem}

-- The calls of the Metrics interface.
pub data MetricCall : Type 0 where
  observe_event : Text → MetricCall
  set_unique_queries set_top_cache_size set_window_buckets : ℕ → MetricCall
  observe_top_rebuild : Text → Duration → MetricCall
  set_current_window_seconds : ℤ → MetricCall

-- The metrics: `none` for nil, else the calls that were made, the last one first.
abbrev pub Metrics : Type 0
Metrics = Option (List MetricCall)

abbrev pub call : Metrics → MetricCall → Metrics
call none c = none
call (some calls) c = some (c ∷ calls)

pub record Config : Type 0 where
  pub window : Duration
  pub bucket_size : Duration
  pub default_limit : ℤ
  pub max_limit : ℤ
  pub top_refresh_interval : Duration
  pub max_query_runes : ℤ
  pub allowed_future_skew : Duration
  pub metrics : Metrics

pub record SearchEvent : Type 0 where
  pub query : Text
  pub user_id : Text
  pub session_id : Text
  pub ip : Text
  pub timestamp : Time

pub record Snapshot : Type 0 where
  pub items : List TopItem
  pub generated_at : Time
  pub window_seconds : ℤ

-- A nil map of counts is `none`.
pub record Bucket : Type 0 where
  pub unix_second : ℤ
  pub counts : Option (TextMap ℕ)

pub record InMemoryAggregator : Type 0 where
  pub cfg : Config
  pub bucket_count : ℕ
  pub metrics : Metrics
  pub buckets : List Bucket
  pub counters : TextMap ℕ
  pub top_cache : List TopItem
  pub top_generated_at : Time
  pub dirty : Bool
