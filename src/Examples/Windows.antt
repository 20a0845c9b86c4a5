-- ===== src/Examples/Windows.antt =====
-- The window of the counters: a window of three buckets of a second, from the Unix second 100 on.
use wb_test_task.Metrics.Counted.{IsCounted, perform_all-IsCounted}
use wb_test_task.Base.{◌⊎◌}
use wb_test_task.Runtime.{canceled}
use wb_test_task.Aggregator.{Wakeup, tick, returned, waiting, run}
use wb_test_task.Aggregator.Loop.{rebuilds, run-perform_all}
use wb_test_task.Aggregator.Fresh.{get_top-perform_all}
use wb_test_task.Base.{◌≡◌, refl, List, [], ◌∷◌, false, none, some, arith}
use wb_test_task.Base.Int.{pos, ◌≤ℤ◌, ◌+ℤ◌, ◌-ℤ◌, floor_div, floor_mod, ℤ_discrete}
use wb_test_task.Base.Text.{Text, codes, text_discrete}
use wb_test_task.Base.Word.{nonpos64, sub64, inc64}
use wb_test_task.Runtime.{Time}
use wb_test_task.TextMap.{lookup, insert, delete, count_of, entry}
use wb_test_task.Aggregator.Types.{Config, SearchEvent, InMemoryAggregator}
use wb_test_task.Aggregator.{
  created, new, validate_and_normalize, add, rebuild_top, cutoff_second, bucket_second,
}
use wb_test_task.Normalizer.{normalize_query}
use wb_test_task.Aggregator.Window.{since}
use wb_test_task.Aggregator.{expire_locked, get_top, normalize_limit}
use wb_test_task.Aggregator.Top.Best.{best, AreCounts}
use wb_test_task.Runtime.{ok}
use wb_test_task.Base.{true}
use wb_test_task.Aggregator.Runs.{
  Operation, add_event, rebuild, perform, perform_all, counted_query, recorded_all, first_second,
  first_second_all, AllFit, counters_exact,
}
use wb_test_task.Examples.Ascii.{lower, ascii}

abbrev pub small_window : Config
small_window = record {
  window = pos 3000000000;
  bucket_size = pos 1000000000;
  default_limit = pos 10;
  max_limit = pos 100;
  top_refresh_interval = pos 500000000;
  max_query_runes = pos 256;
  allowed_future_skew = pos 5000000000;
  metrics = none;
}

-- The Unix second 100 + n.
abbrev pub second_100 : Time
second_100 = pos 62135596900000000000

abbrev second_102 : Time
second_102 = pos 62135596902000000000

abbrev second_103 : Time
second_103 = pos 62135596903000000000

abbrev search : Text → Time → SearchEvent
search query t = record { query = query; user_id = []; session_id = []; ip = []; timestamp = t }

abbrev pub fresh : InMemoryAggregator
fresh = record {
  cfg = small_window;
  bucket_count = 3;
  metrics = none;
  buckets =
      record { unix_second = pos 0; counts = none }
      ∷ record { unix_second = pos 0; counts = none }
      ∷ record { unix_second = pos 0; counts = none }
      ∷ [];
  counters = [];
  top_cache = [];
  top_generated_at = second_100;
  dirty = false;
}

pub fresh_new : new small_window second_100 ≡ created fresh
unfolding new
fresh_new = refl

-- Two searches, a third one when the first second has left the window, and a rebuild.
abbrev searches : List Operation
searches =
    add_event none (search (codes "Tea") second_100) second_100
    ∷ add_event none (search (codes " tea") second_102) second_102
    ∷ add_event none (search (codes "tea") second_103) second_103
    ∷ rebuild none second_103 (pos 0)
    ∷ []

searches-AllFit : AllFit ascii searches fresh (pos 98)
unfolding counted_query first_second perform lower validate_and_normalize normalize_query add
    cutoff_second bucket_second text_discrete ◌+ℤ◌ ◌-ℤ◌ floor_div floor_mod
searches-AllFit = (
  (omega arith, omega arith, omega arith, λ e. cc),
  (
    (omega arith, omega arith, omega arith, λ e. cc),
    ((omega arith, omega arith, omega arith, λ e. cc), (omega arith, tt)),
  ),
)

counters_exact_example :
    lookup (codes "tea") (perform_all ascii searches fresh).counters
    ≡ entry (
        since
          (recorded_all ascii searches fresh [])
          (first_second_all ascii searches fresh (pos 98))
          (codes "tea"))
counters_exact_example =
    counters_exact ascii small_window second_100 fresh (pos 98) searches fresh_new (omega arith)
      searches-AllFit (codes "tea")

two_held : lookup (codes "tea") (perform_all ascii searches fresh).counters ≡ some 2
unfolding lookup insert count_of nonpos64 sub64 inc64 perform_all lower text_discrete ℤ_discrete
    rebuild_top add floor_div floor_mod
two_held = refl

-- An event of exactly the window's age takes the bucket of the current second: the search counted
-- there 0.3 s before is gone.
abbrev second_103_2 : Time
second_103_2 = pos 62135596903200000000

abbrev second_103_5 : Time
second_103_5 = pos 62135596903500000000

abbrev second_100_5 : Time
second_100_5 = pos 62135596900500000000

abbrev late_search : List Operation
late_search =
    add_event none (search (codes "tea") second_103_2) second_103_2
    ∷ add_event none (search (codes "cup") second_100_5) second_103_5
    ∷ []

evicted : lookup (codes "tea") (perform_all ascii late_search fresh).counters ≡ none
unfolding lookup insert count_of nonpos64 sub64 inc64 perform_all lower delete text_discrete
    ℤ_discrete add floor_div floor_mod
evicted = refl

-- An event of the Unix second 0 is counted for ever: here 100 s after it.
abbrev first_second_search : List Operation
first_second_search =
    add_event none (search (codes "tea") (pos 62135596800000000000)) (pos 62135596800000000000)
    ∷ rebuild none second_100 (pos 1)
    ∷ []

never_expired : lookup (codes "tea") (perform_all ascii first_second_search fresh).counters ≡ some 1
unfolding lookup insert count_of nonpos64 sub64 inc64 perform_all lower delete text_discrete
    ℤ_discrete rebuild_top add floor_div floor_mod
never_expired = refl

-- Counters that have changed since the last rebuild.
abbrev counted : InMemoryAggregator
counted = record fresh { counters = (codes "tea", 2) ∷ (codes "cup", 5) ∷ []; dirty = true }

counted-AreCounts : AreCounts (expire_locked counted second_100).0.counters
unfolding expire_locked
counted-AreCounts = (omega arith, (omega arith, tt))

abbrev rebuilt : InMemoryAggregator
rebuilt = perform ascii (rebuild none second_103 (pos 0)) (perform_all ascii searches fresh)

rebuilt-AreCounts : AreCounts rebuilt.counters
unfolding lookup insert count_of nonpos64 sub64 inc64 perform_all lower text_discrete ℤ_discrete
    rebuild_top add floor_div floor_mod
rebuilt-AreCounts = (omega arith, tt)

rebuilt_limits : rebuilt.cfg.default_limit ≤ℤ rebuilt.cfg.max_limit
unfolding lookup insert count_of nonpos64 sub64 inc64 perform_all lower text_discrete ℤ_discrete
    rebuild_top add floor_div floor_mod
rebuilt_limits = omega arith

get_top-perform_all_example :
    get_top none (pos 5) rebuilt
    ≡ ok (best rebuilt.counters (normalize_limit rebuilt.cfg (pos 5)), rebuilt.top_generated_at)
get_top-perform_all_example =
    get_top-perform_all ascii searches small_window second_100 second_103 (pos 0) (pos 5) fresh
      rebuilt fresh_new refl rebuilt-AreCounts rebuilt_limits

abbrev two_ticks : List Wakeup
two_ticks = tick none second_102 (pos 1) ∷ tick (some canceled) second_103 (pos 1) ∷ []

run-perform_all_example :
    ((run two_ticks counted).0 ≡ perform_all ascii (rebuilds two_ticks) counted)
    × (((run two_ticks counted).1 ≡ waiting) ⊎ ((run two_ticks counted).1 ≡ returned none))
run-perform_all_example = run-perform_all ascii two_ticks counted

abbrev measured : InMemoryAggregator
measured = record fresh { metrics = some [] }

perform_all-IsCounted_example : IsCounted (perform_all ascii searches measured)
perform_all-IsCounted_example = perform_all-IsCounted ascii searches measured tt
