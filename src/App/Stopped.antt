-- ===== src/App/Stopped.antt =====
-- The handler of events against the stop list, in the aggregator's normal form.
use wb_test_task.Base.{◌≡◌, refl, sym, ap, ◌∙◌, true, none}
use wb_test_task.Base.Int.{ℤ}
use wb_test_task.Base.Text.{Text, codes}
use wb_test_task.Runtime.{Context, ok, Time}
use wb_test_task.Unicode.{Unicode, trim_space}
use wb_test_task.Normalizer.{normalize_query}
use wb_test_task.Aggregator.Types.{observe_event}
use wb_test_task.Aggregator.{observe}
use wb_test_task.Stoplist.{Manager, normalize, contains, has_word, load}
use wb_test_task.Stoplist.Agree.{HasNoBreaks, normalize-normalize_query}
use wb_test_task.Kafka.{KafkaSearchEvent}
use wb_test_task.App.{App, handle_search_event}

module _ (u : Unicode) where
  contains-normalize :
      (m : Manager) (x y : Text) → normalize u x ≡ normalize u y → contains u m x ≡ contains u m y
  unfolding contains
  contains-normalize m x y e = ap (λ w. has_word w (load m)) e

  -- An event whose query has the normal form of a stop word, as NormalizeQuery makes it of both, is
  -- counted as stopped, and changes nothing else, if neither of the two texts has a character between
  -- its ends that is both a space and a control character.
  pub handle_search_event-contains :
      (limiter_ctx ctx : Context) (event : KafkaSearchEvent) (now : Time) (app : App)
      (word t : Text) (query_limit word_limit : ℤ)
      → HasNoBreaks (trim_space event.query)
      → HasNoBreaks (trim_space word)
      → normalize_query u event.query query_limit ≡ ok t
      → normalize_query u word word_limit ≡ ok t
      → contains u app.stop_words word ≡ true
      → handle_search_event u limiter_ctx ctx event now app
        ≡ (record app { agg = observe (observe_event (codes "stopped")) app.agg }, none)
  unfolding handle_search_event
  handle_search_event-contains limiter_ctx ctx event now app word t query_limit word_limit p q e f
        h =
      let same =
        normalize-normalize_query u event.query query_limit t p e
        ∙ sym (normalize-normalize_query u word word_limit t q f) in
      rw (contains-normalize app.stop_words event.query word same ∙ h) refl
