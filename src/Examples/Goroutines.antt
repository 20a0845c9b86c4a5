-- ===== src/Examples/Goroutines.antt =====
-- Interleavings of the goroutines of the program.
use wb_test_task.Base.{◌≡◌, refl, ◌⊎◌, inl, false, Option, none, some, List, [], ◌∷◌, arith}
use wb_test_task.Base.Int.{pos, ◌≤ℤ◌, floor_div, floor_mod, ◌+ℤ◌, ◌-ℤ◌}
use wb_test_task.TextMap.{lookup, entry}
use wb_test_task.Aggregator.Window.{since}
use wb_test_task.Base.Text.{codes}
use wb_test_task.Runtime.{Error, ok}
use wb_test_task.Normalizer.{normalize_query}
use wb_test_task.Antispam.{allow, new_limiter}
use wb_test_task.Kafka.{to_aggregator_event}
use wb_test_task.Aggregator.Types.{SearchEvent}
use wb_test_task.Base.Text.{text_discrete}
use wb_test_task.Aggregator.{
  validate_and_normalize, add, cutoff_second, bucket_second, tick, get_top, normalize_limit, run,
  rebuild_top, rebuild_locked, expire_locked,
}
use wb_test_task.Aggregator.Top.Best.{best, AreCounts}
use wb_test_task.Aggregator.Runs.{
  add_event, counted_query, first_second, perform, perform_all, AllFit, recorded_all,
  first_second_all,
}
use wb_test_task.Stoplist.{contains, normalize, new_manager}
use wb_test_task.Stoplist.Words.{change_all}
use wb_test_task.Kafka.{Message}
use wb_test_task.Kafka.Consumer.{Consumer, new_consumer}
use wb_test_task.Server.Grpc.{is_given}
use wb_test_task.App.Group.{ErrGroup}
use wb_test_task.App.Running.{
  Outside, Delivery, got, adding_word, Action, wake, consume, call, grpc_listen, System, launch,
  act, Reaches, at_once, after, ended,
}
use wb_test_task.App.Running.Parts.{operations, changes, event_operations}
use wb_test_task.App.Running.Composed.{Reaches-perform_all, Reaches-counters, Reaches-get_top}
use wb_test_task.App.Running.Delivered.{fetched_messages, Reaches-committed}
use wb_test_task.Examples.Ascii.{lower, ascii}
use wb_test_task.Examples.Windows.{second_100, small_window, fresh_new}
use wb_test_task.Examples.Handling.{app_at_100, raw_event, parsed}

-- The first error that is returned.
abbrev pub first : Option Error → Option Error → Option Error
first r none = r
first r (some e) = some e

pub first-none : (g : Option Error) → first none g ≡ g
first-none none = refl
first-none (some e) = refl

pub first-some : (e : Error) (g : Option Error) → g ≡ none → first (some e) g ≡ some e
first-some e none p = refl
first-some e (some d) p = cc

pub first_later : (e d : Error) (g : Option Error) → g ≡ some d → first (some e) g ≡ some d
first_later e d none p = cc
first_later e d (some x) p = p

abbrev pub group : ErrGroup
group = record {
  Group = Option Error;
  with_context = none;
  finish = first;
  failure = λ g. g;
  is_canceled = is_given;
  failure-with_context = refl;
  failure-finish_nil = first-none;
  failure-finish_first = first-some;
  failure-finish_later = first_later;
  is_canceled-failure = λ g. refl;
}

abbrev pub outside : Outside
outside = record { unicode = ascii; unmarshal = raw_event; parse_time = parsed; errgroup = group }

abbrev pub consumer : Consumer
consumer = new_consumer false (pos 0) (pos 0)

abbrev pub launched : System outside
launched = launch outside app_at_100 consumer

abbrev pub delivery : Delivery
delivery = record {
  limiter_ctx = none;
  add_ctx = none;
  now = second_100;
  elapsed = pos 1;
  commit = λ attempt. (none, none);
}

abbrev pub first_message : Message
first_message = record { partition = 0; offset = 7; value = codes "{}" }

-- A word is added to the stop list, and a message is fetched.
abbrev added_and_got : List Action
added_and_got =
    grpc_listen none
    ∷ call none (adding_word (some (codes "Spam")))
    ∷ consume (got first_message delivery)
    ∷ []

abbrev listening : System outside
listening = act outside (grpc_listen none) launched

abbrev edited : System outside
edited = act outside (call none (adding_word (some (codes "Spam")))) listening

abbrev received : System outside
received = act outside (consume (got first_message delivery)) edited

received-Reaches : Reaches outside launched added_and_got received
unfolding act
received-Reaches = after (grpc_listen none) refl (
    after (call none (adding_word (some (codes "Spam")))) (inl refl)
      (after (consume (got first_message delivery)) (refl, tt, tt, λ attempt. tt) at_once))

Reaches-committed_example :
    (received.consumer.committed ≡ fetched_messages added_and_got [])
    ⊎ (((r : Option Error) × (received.consumer_thread ≡ ended r))
        × ((m : Message) × (m ∷ received.consumer.committed ≡ fetched_messages added_and_got [])))
Reaches-committed_example =
    Reaches-committed outside app_at_100 false (pos 0) (pos 0) added_and_got received
      received-Reaches

Reaches-perform_all_example :
    (received.app.agg
      ≡ perform_all ascii (operations outside added_and_got launched) launched.app.agg)
    × (received.app.stop_words
        ≡ change_all ascii (changes outside added_and_got) launched.app.stop_words)
Reaches-perform_all_example =
    Reaches-perform_all outside added_and_got launched received received-Reaches

-- The aggregator rebuilds its list, which is empty.
abbrev ticked : List Action
ticked = wake (tick none second_100 (pos 1)) ∷ []

abbrev rebuilt : System outside
rebuilt = act outside (wake (tick none second_100 (pos 1))) launched

rebuilt-Reaches : Reaches outside launched ticked rebuilt
rebuilt-Reaches = after (wake (tick none second_100 (pos 1))) (refl, tt) at_once

rebuilt_clean : rebuilt.app.agg.dirty ≡ false
unfolding act run rebuild_top rebuild_locked expire_locked floor_div floor_mod
rebuilt_clean = refl

rebuilt-AreCounts : AreCounts rebuilt.app.agg.counters
unfolding act run rebuild_top rebuild_locked expire_locked floor_div floor_mod
rebuilt-AreCounts = tt

rebuilt_limits : rebuilt.app.agg.cfg.default_limit ≤ℤ rebuilt.app.agg.cfg.max_limit
unfolding act run rebuild_top rebuild_locked expire_locked floor_div floor_mod
rebuilt_limits = omega arith

Reaches-get_top_example :
    get_top none (pos 5) rebuilt.app.agg
    ≡ ok (
      best rebuilt.app.agg.counters (normalize_limit rebuilt.app.agg.cfg (pos 5)),
      rebuilt.app.agg.top_generated_at,
    )
Reaches-get_top_example =
    Reaches-get_top outside app_at_100 consumer ticked rebuilt small_window second_100 (pos 5)
      fresh_new rebuilt-Reaches rebuilt_clean rebuilt-AreCounts rebuilt_limits

-- A message is counted.
abbrev tea_search : SearchEvent
tea_search = record {
  query = codes "Tea";
  user_id = [];
  session_id = [];
  ip = [];
  timestamp = second_100;
}

abbrev got_one : List Action
got_one = consume (got first_message delivery) ∷ []

abbrev counted : System outside
counted = act outside (consume (got first_message delivery)) launched

counted-Reaches : Reaches outside launched got_one counted
counted-Reaches = after (consume (got first_message delivery)) (refl, tt, tt, λ attempt. tt) at_once

one_event : operations outside got_one launched ≡ add_event none tea_search second_100 ∷ []
unfolding operations event_operations allow contains normalize lower to_aggregator_event new_manager
    new_limiter
one_event = refl

one_event-AllFit : AllFit ascii (add_event none tea_search second_100 ∷ []) app_at_100.agg (pos 98)
unfolding counted_query first_second perform lower validate_and_normalize normalize_query add
    cutoff_second bucket_second text_discrete ◌+ℤ◌ ◌-ℤ◌ floor_div floor_mod
one_event-AllFit = ((omega arith, omega arith, omega arith, λ e. cc), tt)

Reaches-counters_example :
    lookup (codes "tea") counted.app.agg.counters
    ≡ entry (
        since
          (recorded_all ascii (operations outside got_one launched) app_at_100.agg [])
          (first_second_all ascii (operations outside got_one launched) app_at_100.agg (pos 98))
          (codes "tea"))
Reaches-counters_example =
    Reaches-counters outside app_at_100 consumer got_one counted small_window second_100 (pos 98)
      (codes "tea") fresh_new counted-Reaches (rw one_event (omega arith))
      (rw one_event one_event-AllFit)
