-- ===== src/Aggregator/Runs.antt =====
-- Runs of the aggregator: sequences of calls of Add and RebuildTop, against the history of the events
-- that were counted.
use wb_test_task.Base.{◌+◌, ◌≤◌, ◌<◌, ◌≡◌, ◌≢◌, some, none, Option, List, [], ◌∷◌, length, arith}
use wb_test_task.Base.Int.{ℤ, pos, ◌≤ℤ◌}
use wb_test_task.Base.Text.{Text, codes}
use wb_test_task.Base.Word.{int64_sign}
use wb_test_task.Runtime.{Context, Result, ok, err, Time, Duration}
use wb_test_task.Unicode.{Unicode}
use wb_test_task.TextMap.{lookup, entry}
use wb_test_task.Aggregator.Types.{Config, observe_event, SearchEvent, InMemoryAggregator}
use wb_test_task.Aggregator.{
  created, new, validate_and_normalize, bucket_second, cutoff_second, add_validated, add,
  rebuild_top, observe,
}
use wb_test_task.Aggregator.Window.{History, since}
use wb_test_task.Aggregator.Exact.{
  Tracks, counters-eq-since, new-Tracks, add_locked-Tracks, rebuild_locked-Tracks,
}

-- Why the handler of cmd/app/main.go counts an event as dropped, and gives it not to Add.
pub data Drop : Type 0 where
  stop_word over_limit : Drop

abbrev pub drop_status : Drop → Text
drop_status stop_word = codes "stopped"
drop_status over_limit = codes "rate_limited"

-- The calls that change the aggregator, with what they see of their context and of the clock.
pub data Operation : Type 0 where
  add_event : Context → SearchEvent → Time → Operation
  drop_event : Drop → Operation
  rebuild : Context → Time → Duration → Operation

abbrev pub query_of : Result (Option Text) → Option Text
query_of (ok o) = o
query_of (err e) = none

module _ (u : Unicode) where
  unfoldable pub perform : Operation → InMemoryAggregator → InMemoryAggregator
  perform (add_event ctx event now) a = (add u ctx event now a).0
  perform (drop_event why) a = observe (observe_event (drop_status why)) a
  perform (rebuild ctx now elapsed) a = (rebuild_top ctx now elapsed a).0

  unfoldable pub perform_all : List Operation → InMemoryAggregator → InMemoryAggregator
  unfolding perform
  perform_all [] a = a
  perform_all (op ∷ ops) a = perform_all ops (perform op a)

  -- The query that Add counts.
  unfoldable pub counted_query : Context → SearchEvent → Time → InMemoryAggregator → Option Text
  counted_query (some e) event now a = none
  counted_query none event now a = query_of (validate_and_normalize u a.cfg event now)

  abbrev pub record_query : Config → Time → Option Text → History → History
  record_query cfg t none h = h
  record_query cfg t (some q) h = (bucket_second cfg t, q) ∷ h

  -- The history after an operation.
  unfoldable pub recorded : Operation → InMemoryAggregator → History → History
  unfolding counted_query
  recorded (add_event ctx event now) a h =
      record_query a.cfg event.timestamp (counted_query ctx event now a) h
  recorded (drop_event why) a h = h
  recorded (rebuild ctx now elapsed) a h = h

  abbrev pub moved_by : ℤ → ℤ → Option Text → ℤ
  moved_by lo cutoff none = lo
  moved_by lo cutoff (some q) = cutoff

  -- The first second of the window after an operation: an operation that does not get to
  -- expireLocked leaves it.
  unfoldable pub first_second : Operation → InMemoryAggregator → ℤ → ℤ
  unfolding counted_query cutoff_second
  first_second (add_event ctx event now) a lo =
      moved_by lo (cutoff_second a now) (counted_query ctx event now a)
  first_second (drop_event why) a lo = lo
  first_second (rebuild (some e) now elapsed) a lo = lo
  first_second (rebuild none now elapsed) a lo = cutoff_second a now

  abbrev pub FitsQuery : ℤ → InMemoryAggregator → Time → Time → Option Text → Type 0
  FitsQuery lo a timestamp now none = Unit
  FitsQuery lo a timestamp now (some q) =
      (lo ≤ℤ cutoff_second a now)
      × (cutoff_second a now ≤ℤ bucket_second a.cfg timestamp)
      × (bucket_second a.cfg timestamp ≤ℤ bucket_second a.cfg now)
      × (bucket_second a.cfg timestamp ≢ pos 0)

  -- The clock does not go back, and an event that is counted is of a second of the window that ends
  -- with the clock's second, and not of the Unix second 0 (FitsQuery): a bucket of that second is an
  -- empty one to expireLocked, which never takes its counts off the counters.
  abbrev pub Fits : Operation → InMemoryAggregator → ℤ → Type 0
  Fits (add_event ctx event now) a lo =
      FitsQuery lo a event.timestamp now (counted_query ctx event now a)
  Fits (drop_event why) a lo = Unit
  Fits (rebuild (some e) now elapsed) a lo = Unit
  Fits (rebuild none now elapsed) a lo = lo ≤ℤ cutoff_second a now

  add_validated-Tracks :
      (lo : ℤ) (h : History) (a : InMemoryAggregator) (event : SearchEvent) (now : Time)
      (v : Result (Option Text))
      → Tracks lo h a
      → length h + 1 < int64_sign
      → FitsQuery lo a event.timestamp now (query_of v)
      → Tracks
          (moved_by lo (cutoff_second a now) (query_of v))
          (record_query a.cfg event.timestamp (query_of v) h)
          (add_validated a event now v).0
  add_validated-Tracks lo h a event now (err e) w small f = w
  add_validated-Tracks lo h a event now (ok none) w small f = w
  add_validated-Tracks lo h a event now (ok (some q)) w small (forward, first, last, nz) =
      add_locked-Tracks lo h a (bucket_second a.cfg event.timestamp) q now w forward small nz first
        last

  perform-Tracks :
      (op : Operation) (lo : ℤ) (h : History) (a : InMemoryAggregator)
      → Tracks lo h a
      → length h + 1 < int64_sign
      → Fits op a lo
      → Tracks (first_second op a lo) (recorded op a h) (perform op a)
  unfolding perform recorded first_second add rebuild_top
  perform-Tracks (add_event (some e) event now) lo h a w small f = w
  perform-Tracks (add_event none event now) lo h a w small f =
      add_validated-Tracks lo h a event now (validate_and_normalize u a.cfg event now) w small f
  perform-Tracks (drop_event why) lo h a w small f = w
  perform-Tracks (rebuild (some e) now elapsed) lo h a w small f = w
  perform-Tracks (rebuild none now elapsed) lo h a w small f =
      rebuild_locked-Tracks lo h a now w f (omega arith)

  -- The history, the first second of the window and the fitness of a whole run.
  unfoldable pub recorded_all : List Operation → InMemoryAggregator → History → History
  unfolding perform recorded
  recorded_all [] a h = h
  recorded_all (op ∷ ops) a h = recorded_all ops (perform op a) (recorded op a h)

  unfoldable pub first_second_all : List Operation → InMemoryAggregator → ℤ → ℤ
  unfolding perform first_second
  first_second_all [] a lo = lo
  first_second_all (op ∷ ops) a lo = first_second_all ops (perform op a) (first_second op a lo)

  abbrev pub AllFit : List Operation → InMemoryAggregator → ℤ → Type 0
  AllFit [] a lo = Unit
  AllFit (op ∷ ops) a lo = Fits op a lo × AllFit ops (perform op a) (first_second op a lo)

  length-record_query :
      (cfg : Config) (t : Time) (o : Option Text) (h : History)
      → length (record_query cfg t o h) ≤ length h + 1
  length-record_query cfg t none h = omega arith
  length-record_query cfg t (some q) h = omega arith

  length-recorded :
      (op : Operation) (a : InMemoryAggregator) (h : History)
      → length (recorded op a h) ≤ length h + 1
  unfolding recorded
  length-recorded (add_event ctx event now) a h = length-record_query a.cfg event.timestamp _ h
  length-recorded (drop_event why) a h = omega arith
  length-recorded (rebuild ctx now elapsed) a h = omega arith

  perform_all-Tracks :
      (ops : List Operation) (lo : ℤ) (h : History) (a : InMemoryAggregator)
      → Tracks lo h a
      → length h + length ops < int64_sign
      → AllFit ops a lo
      → Tracks (first_second_all ops a lo) (recorded_all ops a h) (perform_all ops a)
  unfolding perform_all recorded_all first_second_all
  perform_all-Tracks [] lo h a w small f = w
  perform_all-Tracks (op ∷ ops) lo h a w small (f, fs) =
      perform_all-Tracks ops (first_second op a lo) (recorded op a h) (perform op a)
        (perform-Tracks op lo h a w (omega arith) f) (omega (arith, length-recorded op a h)) fs

  -- After any run of fewer than 2 ^ 63 calls of Add and RebuildTop, and of events that the handler
  -- drops, on a new aggregator, in which the clock does not go back and each counted event is of a
  -- second of the current window and not of the Unix second 0, the counters hold for each query exactly
  -- how often it was counted in the seconds of the last window, and no entry for a query that was not.
  pub counters_exact :
      (cfg : Config) (start : Time) (a : InMemoryAggregator) (lo : ℤ) (ops : List Operation)
      → new cfg start ≡ created a
      → length ops < int64_sign
      → AllFit ops a lo
      → (q : Text)
      → lookup q (perform_all ops a).counters
        ≡ entry (since (recorded_all ops a []) (first_second_all ops a lo) q)
  counters_exact cfg start a lo ops e small fits =
      counters-eq-since (first_second_all ops a lo) (recorded_all ops a []) (perform_all ops a)
        (perform_all-Tracks ops lo [] a (new-Tracks cfg start a lo e) (omega arith) fits)
