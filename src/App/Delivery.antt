-- ===== src/App/Delivery.antt =====
-- The decoder, the handler of events and the consumer together: which messages fail.
use wb_test_task.Base.{◌≡◌, refl, true, Option, none, some, inl, inr, ◌⊎◌, Bool-cases}
use wb_test_task.Base.Text.{Text}
use wb_test_task.Runtime.{
  Context, ContextError, Error, context, empty_query, query_too_long, invalid_timestamp,
  event_from_future, other, decode_failed, validation_failed, Result, ok, err, Time,
  is_context_error,
}
use wb_test_task.Unicode.{Unicode, trim_space}
use wb_test_task.Normalizer.{is_empty}
use wb_test_task.Kafka.{KafkaSearchEvent}
use wb_test_task.Kafka.Decoder.{RawSearchEvent, decode, decode_raw, decode_time}
use wb_test_task.Kafka.Commits.{is_done}
use wb_test_task.App.{App, handle_search_event}
use wb_test_task.App.Errors.{IsOnly, handle_search_event-error}

-- A message is done with, or its handler has answered that its context is done.
abbrev pub IsDelivered : Result KafkaSearchEvent → Option Error → Type 0
IsDelivered d answer =
    (is_done d answer ≡ true) ⊎ ((e : ContextError) × (answer ≡ some (context e)))

handled-IsDelivered :
    (event : KafkaSearchEvent) (answer : Option Error)
    → IsOnly is_context_error answer
    → IsDelivered (ok event) answer
unfolding is_context_error
handled-IsDelivered event none p = inl refl
handled-IsDelivered event (some (context e)) p = inr (e, refl)
handled-IsDelivered event (some empty_query) p = cc
handled-IsDelivered event (some query_too_long) p = cc
handled-IsDelivered event (some invalid_timestamp) p = cc
handled-IsDelivered event (some event_from_future) p = cc
handled-IsDelivered event (some decode_failed) p = cc
handled-IsDelivered event (some (validation_failed why)) p = cc
handled-IsDelivered event (some (other n)) p = cc

module _ (u : Unicode) where
  -- what the handler answers to a decoded message; one that is not decoded does not reach it
  abbrev pub answer_to : Context → Context → Time → App → Result KafkaSearchEvent → Option Error
  answer_to limiter_ctx ctx now app (ok event) =
      (handle_search_event u limiter_ctx ctx event now app).1
  answer_to limiter_ctx ctx now app (err e) = none

  module _ (unmarshal : Text → Option RawSearchEvent) (parse_time : Text → Option Time) where
    module _ (limiter_ctx ctx : Context) (now : Time) (app : App) where
      Delivers : Result KafkaSearchEvent → Type 0
      Delivers d = IsDelivered d (answer_to limiter_ctx ctx now app d)

      event-Delivers : (event : KafkaSearchEvent) → Delivers (ok event)
      unfolding Delivers
      event-Delivers event =
          handled-IsDelivered event (handle_search_event u limiter_ctx ctx event now app).1
            (handle_search_event-error u limiter_ctx ctx event now app)

      decode_time-Delivers :
          (raw : RawSearchEvent) (t : Option Time)
          → Delivers (decode_time unmarshal parse_time raw t)
      unfolding Delivers
      decode_time-Delivers raw none = inl refl
      decode_time-Delivers raw (some t) = event-Delivers (record {
        event_id = trim_space raw.event_id;
        query = raw.query;
        user_id = trim_space raw.user_id;
        session_id = trim_space raw.session_id;
        ip = trim_space raw.ip;
        user_agent = trim_space raw.user_agent;
        timestamp = t;
      })

      decode_raw-Delivers :
          (raw : Option RawSearchEvent) → Delivers (decode_raw unmarshal parse_time raw)
      unfolding Delivers
      decode_raw-Delivers none = inl refl
      decode_raw-Delivers (some raw) = elim (Bool-cases (is_empty (trim_space raw.event_id))) [
        | inl a ↦ rw a (inl refl)
        | inr a ↦ elim (Bool-cases (is_empty (trim_space raw.query))) [
          | inl b ↦ rw (a, b) (inl refl)
          | inr b ↦ elim (Bool-cases (is_empty (trim_space raw.timestamp))) [
            | inl c ↦ rw (a, b, c) (inl refl)
            | inr c ↦
                rw (a, b, c) (decode_time-Delivers raw (parse_time (trim_space raw.timestamp)))
          ]
        ]
      ]

    -- Whatever json.Unmarshal and time.Parse answer, a payload that the JSON decoder decodes and the
    -- handler of events is given is done with, as invalid or as handled, unless the handler answers that
    -- its context is done.
    pub decode-IsDelivered :
        (limiter_ctx ctx : Context) (now : Time) (app : App) (payload : Text)
        → IsDelivered
            (decode unmarshal parse_time payload)
            (answer_to limiter_ctx ctx now app (decode unmarshal parse_time payload))
    unfolding decode Delivers
    decode-IsDelivered limiter_ctx ctx now app payload =
        decode_raw-Delivers limiter_ctx ctx now app (unmarshal payload)
