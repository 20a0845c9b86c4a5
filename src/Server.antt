-- ===== src/Server.antt =====
-- internal/server/search_trends.go: the handlers of the gRPC service. A nil request is `none`; the
-- metrics of the stop list are the calls made, `none` for nil, the last one first.
pub mod Exposition
pub mod Grpc
pub mod Intercepted
pub mod Stopping
pub mod Bounded
pub mod Rejected
use wb_test_task.Base.{ℕ, Bool, Option, none, some, List, [], ◌∷◌, ◌%◌, if◌then◌else◌, ltb}
use wb_test_task.Base.Int.{pos, pos_part}
use wb_test_task.Base.Text.{Text, codes}
use wb_test_task.Base.Word.{nonpos64}
use wb_test_task.Runtime.{
  Context, canceled, deadline_exceeded, Error, context, Result, ok, err, Time,
}
use wb_test_task.Unicode.{Unicode, trim_space}
use wb_test_task.Normalizer.{is_empty, normalize_query}
use wb_test_task.Aggregator.Types.{Snapshot, InMemoryAggregator}
use wb_test_task.Aggregator.Top.{TopItem}
use wb_test_task.Aggregator.{snapshot}
use wb_test_task.Stoplist.{Manager, add_word, remove_word, list_words, size}

-- The codes of the status errors, and what they say where the program chooses it.
pub data Status : Type 0 where
  invalid_argument : Text → Status
  status_canceled status_deadline_exceeded status_internal : Status

pub data Reply {ℓ} (A : Type ℓ) : Type ℓ where
  replied : A → Reply A
  rejected : Status → Reply A

pub data StopListCall : Type 0 where
  stop_list_operation : Text → Text → StopListCall
  stop_list_size : ℕ → StopListCall

-- The stop words and the metrics of the handler.
pub record SearchTrendsHandler : Type 0 where
  pub stop_words : Manager
  pub metrics : Option (List StopListCall)

pub record GetTopResponse : Type 0 where
  pub items : List TopItem
  pub generated_at : Time
  pub window_seconds : ℕ

pub record StopWordResponse : Type 0 where
  pub word : Text
  pub applied : Bool
  pub message : Text

-- toStatusError, for an error that is not nil
unfoldable pub to_status_error : Error → Status
to_status_error (context canceled) = status_canceled
to_status_error (context deadline_exceeded) = status_deadline_exceeded
to_status_error _ = status_internal

-- the loop of GetTop over the items
unfoldable pub shown_items : List TopItem → List TopItem
unfolding nonpos64
shown_items [] = []
shown_items (item ∷ items) =
    if nonpos64 item.count then shown_items items else item ∷ shown_items items

abbrev pub requested : Option ℕ → ℕ
requested none = 0
requested (some limit) = limit

-- maxInt, for a 64-bit int
abbrev pub max_int : ℕ
max_int = 9223372036854775807

abbrev pub top_reply : Result Snapshot → Reply GetTopResponse
top_reply (err e) = rejected (to_status_error e)
top_reply (ok s) = replied (record {
  items = shown_items s.items;
  generated_at = s.generated_at;
  window_seconds = pos_part s.window_seconds % 4294967296;
})

-- GetTop; the window is positive, so that the conversion to uint32 is of a number that is not negative
unfoldable pub get_top_response : Context → Option ℕ → InMemoryAggregator → Reply GetTopResponse
unfolding to_status_error shown_items snapshot
get_top_response ctx request a =
    if ltb max_int (requested request)
    then rejected (invalid_argument (codes "limit is too large"))
    else top_reply (snapshot ctx (pos (requested request)) a)

abbrev pub word_reply : Result Text → Reply Text
word_reply (err e) = rejected (invalid_argument (codes "invalid word"))
word_reply (ok normalized) = replied normalized

-- validateStopWordRequest
unfoldable pub validate_stop_word_request : Unicode → Option Text → Reply Text
unfolding trim_space normalize_query
validate_stop_word_request u none = rejected (invalid_argument (codes "request is required"))
validate_stop_word_request u (some request) =
    let word = trim_space request in
    if is_empty word
    then rejected (invalid_argument (codes "word is required"))
    else word_reply (normalize_query u word (pos 256))

-- observeStopListOperation and setStopListSize
unfoldable pub note_stop_list : StopListCall → SearchTrendsHandler → SearchTrendsHandler
note_stop_list call h = record h {
  metrics = elim h.metrics [ none ↦ none | some calls ↦ some (call ∷ calls) ];
}

abbrev pub set_stop_list_size : SearchTrendsHandler → SearchTrendsHandler
set_stop_list_size h = note_stop_list (stop_list_size (size h.stop_words)) h

abbrev pub change_reply :
    (Manager → Text → Manager × Bool)
    → Text
    → Text
    → Text
    → Reply Text
    → SearchTrendsHandler
    → SearchTrendsHandler × Reply StopWordResponse
change_reply change operation done undone (rejected s) h =
    (note_stop_list (stop_list_operation operation (codes "failed")) h, rejected s)
change_reply change operation done undone (replied word) h =
    let (words, applied) = change h.stop_words word in
    (
      set_stop_list_size (
          note_stop_list
            (stop_list_operation operation (if applied then codes "success" else codes "failed"))
            (record h { stop_words = words })),
      replied
          (record { word = word; applied = applied; message = if applied then done else undone }),
    )

-- AddStopWord
unfoldable pub add_stop_word :
    Unicode
    → Context
    → Option Text
    → SearchTrendsHandler
    → SearchTrendsHandler × Reply StopWordResponse
unfolding to_status_error validate_stop_word_request note_stop_list add_word size
add_stop_word u (some e) request h = (h, rejected (to_status_error (context e)))
add_stop_word u none request h =
    change_reply (add_word u) (codes "add") (codes "added") (codes "already exists")
      (validate_stop_word_request u request) h

-- RemoveStopWord
unfoldable pub remove_stop_word :
    Unicode
    → Context
    → Option Text
    → SearchTrendsHandler
    → SearchTrendsHandler × Reply StopWordResponse
unfolding to_status_error validate_stop_word_request note_stop_list remove_word size
remove_stop_word u (some e) request h = (h, rejected (to_status_error (context e)))
remove_stop_word u none request h =
    change_reply (remove_word u) (codes "remove") (codes "removed") (codes "not found")
      (validate_stop_word_request u request) h

-- ListStopWords
unfoldable pub list_stop_words :
    Context → SearchTrendsHandler → SearchTrendsHandler × Reply (List Text)
unfolding to_status_error note_stop_list list_words size
list_stop_words (some e) h = (h, rejected (to_status_error (context e)))
list_stop_words none h = (
  set_stop_list_size (note_stop_list (stop_list_operation (codes "list") (codes "success")) h),
  replied (list_words h.stop_words),
)

-- HealthCheck at time `now`
unfoldable pub health_check : Context → Time → Reply (Text × Time)
unfolding to_status_error
health_check (some e) now = rejected (to_status_error (context e))
health_check none now = replied (codes "SERVING", now)
