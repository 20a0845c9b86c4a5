-- ===== src/Examples/Handling.antt =====
-- The handler of the events of Kafka.
use wb_test_task.Base.{◌≡◌, refl}
use wb_test_task.Runtime.{ok}
use wb_test_task.Unicode.{trim_space}
use wb_test_task.Kafka.WellFormed.{IsWellFormed, decode-IsWellFormed}
use wb_test_task.Base.{[], ◌∷◌, none, false, true}
use wb_test_task.Base.Text.{text_discrete}
use wb_test_task.Unicode.{is_space, is_control}
use wb_test_task.Normalizer.{normalize_query}
use wb_test_task.Aggregator.Types.{observe_event}
use wb_test_task.Aggregator.{observe}
use wb_test_task.Stoplist.{contains, normalize}
use wb_test_task.Stoplist.Agree.{HasNoBreaks}
use wb_test_task.App.Tallied.{IsTallied, handle_search_event-IsTallied}
use wb_test_task.App.Stopped.{handle_search_event-contains}
use wb_test_task.Base.Int.{pos}
use wb_test_task.Base.Text.{codes}
use wb_test_task.Kafka.{KafkaSearchEvent}
use wb_test_task.Stoplist.{new_manager}
use wb_test_task.Antispam.{new_limiter}
use wb_test_task.App.{App, handle_search_event}
use wb_test_task.Kafka.Decoder.{RawSearchEvent, decode}
use wb_test_task.Base.{some, Option}
use wb_test_task.Base.Text.{Text}
use wb_test_task.Runtime.{Time}
use wb_test_task.Examples.Ascii.{lower, ascii}
use wb_test_task.Examples.Windows.{fresh, second_100}

abbrev pub app_at_100 : App
app_at_100 = record {
  stop_words = new_manager ascii [];
  limiter =
      new_limiter
        (record {
          enabled = false;
          max_events_per_identity_per_minute = pos 0;
          max_same_query_per_identity_per_window = pos 0;
        })
        none;
  agg = fresh;
}

-- An event without a query, which the aggregator refuses.
abbrev empty_event : KafkaSearchEvent
empty_event = record {
  event_id = codes "1";
  query = [];
  user_id = [];
  session_id = [];
  ip = [];
  user_agent = [];
  timestamp = second_100;
}

-- What any payload is read as.
abbrev pub raw_event : Text → Option RawSearchEvent
raw_event payload = some (record {
  event_id = codes " 1 ";
  query = codes "Tea";
  user_id = [];
  session_id = [];
  ip = [];
  user_agent = [];
  timestamp = codes "2026-01-01T00:00:00Z";
})

abbrev pub parsed : Text → Option Time
parsed text = some second_100

abbrev pub decoded_event : KafkaSearchEvent
decoded_event = record empty_event { query = codes "Tea" }

pub decoded_ok : decode raw_event parsed (codes "{}") ≡ ok decoded_event
unfolding decode trim_space
decoded_ok = refl

decode-IsWellFormed_example : IsWellFormed decoded_event
decode-IsWellFormed_example =
    decode-IsWellFormed raw_event parsed (codes "{}") decoded_event decoded_ok

-- "Tea" is a stop word.
abbrev no_tea : App
no_tea = record app_at_100 { stop_words = new_manager ascii (codes "tea" ∷ []) }

abbrev loud_tea : KafkaSearchEvent
loud_tea = record empty_event { query = codes " TEA" }

loud_tea_normal : normalize_query ascii (codes " TEA") (pos 256) ≡ ok (codes "tea")
unfolding normalize_query lower
loud_tea_normal = refl

tea_normal : normalize_query ascii (codes "tea") (pos 256) ≡ ok (codes "tea")
unfolding normalize_query lower
tea_normal = refl

tea_stopped : contains ascii no_tea.stop_words (codes "tea") ≡ true
unfolding contains new_manager normalize lower text_discrete
tea_stopped = refl

loud_tea-HasNoBreaks : HasNoBreaks (trim_space (codes " TEA"))
unfolding trim_space is_space is_control
loud_tea-HasNoBreaks = (refl, (refl, (refl, tt)))

tea-HasNoBreaks : HasNoBreaks (trim_space (codes "tea"))
unfolding trim_space is_space is_control
tea-HasNoBreaks = (refl, (refl, (refl, tt)))

handle_search_event-contains_example :
    handle_search_event ascii none none loud_tea second_100 no_tea
    ≡ (record no_tea { agg = observe (observe_event (codes "stopped")) no_tea.agg }, none)
handle_search_event-contains_example =
    handle_search_event-contains ascii none none loud_tea second_100 no_tea (codes "tea")
      (codes "tea") (pos 256) (pos 256) loud_tea-HasNoBreaks tea-HasNoBreaks loud_tea_normal
      tea_normal tea_stopped

abbrev measured_app : App
measured_app = record app_at_100 { agg = record fresh { metrics = some [] } }

handle_search_event-IsTallied_example :
    IsTallied measured_app.agg
      (handle_search_event ascii none none empty_event second_100 measured_app).0.agg
handle_search_event-IsTallied_example =
    handle_search_event-IsTallied ascii empty_event second_100 measured_app [] refl
