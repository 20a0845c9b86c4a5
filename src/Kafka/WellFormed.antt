-- ===== src/Kafka/WellFormed.antt =====
-- What the decoder promises of the events that it gives to the consumer.
use wb_test_task.Base.{◌≡◌, refl, Bool, true, false, Option, none, some, if◌then◌else◌, subst}
use wb_test_task.Base.Text.{Text}
use wb_test_task.Runtime.{Result, ok, Time}
use wb_test_task.Unicode.{trim_space, trim_space_idem}
use wb_test_task.Normalizer.{is_empty}
use wb_test_task.Kafka.{KafkaSearchEvent}
use wb_test_task.Kafka.Decoder.{RawSearchEvent, invalid, decode_time, decode_raw, decode}

abbrev pub IsTrimmed : Text → Type 0
IsTrimmed text = trim_space text ≡ text

-- An event with an identifier and a query, the texts about its actor without spaces at their ends.
pub record IsWellFormed (e : KafkaSearchEvent) : Type 0 where
  pub identified : is_empty e.event_id ≡ false
  pub searched : is_empty (trim_space e.query) ≡ false
  pub id_trimmed : IsTrimmed e.event_id
  pub user_trimmed : IsTrimmed e.user_id
  pub session_trimmed : IsTrimmed e.session_id
  pub ip_trimmed : IsTrimmed e.ip
  pub agent_trimmed : IsTrimmed e.user_agent

refused_not :
    (b : Bool) (why : Text) (r : Result KafkaSearchEvent) (e : KafkaSearchEvent)
    → (if b then invalid why else r) ≡ ok e
    → (b ≡ false) × (r ≡ ok e)
refused_not true why r e h = cc
refused_not false why r e h = (refl, h)

module _ (unmarshal : Text → Option RawSearchEvent) (parse_time : Text → Option Time) where
  decode_time-IsWellFormed :
      (raw : RawSearchEvent) (t : Option Time) (e : KafkaSearchEvent)
      → is_empty (trim_space raw.event_id) ≡ false
      → is_empty (trim_space raw.query) ≡ false
      → decode_time unmarshal parse_time raw t ≡ ok e
      → IsWellFormed e
  decode_time-IsWellFormed raw none e p q h = cc
  decode_time-IsWellFormed raw (some t) e p q h =
      let event : KafkaSearchEvent = record {
        event_id = trim_space raw.event_id;
        query = raw.query;
        user_id = trim_space raw.user_id;
        session_id = trim_space raw.session_id;
        ip = trim_space raw.ip;
        user_agent = trim_space raw.user_agent;
        timestamp = t;
      } in
      let same : event ≡ e = cc in
      subst IsWellFormed same (record {
        identified = p;
        searched = q;
        id_trimmed = trim_space_idem raw.event_id;
        user_trimmed = trim_space_idem raw.user_id;
        session_trimmed = trim_space_idem raw.session_id;
        ip_trimmed = trim_space_idem raw.ip;
        agent_trimmed = trim_space_idem raw.user_agent;
      })

  decode_raw-IsWellFormed :
      (o : Option RawSearchEvent) (e : KafkaSearchEvent)
      → decode_raw unmarshal parse_time o ≡ ok e
      → IsWellFormed e
  decode_raw-IsWellFormed none e h = cc
  decode_raw-IsWellFormed (some raw) e h =
      let (p, h1) = refused_not (is_empty (trim_space raw.event_id)) _ _ e h in
      let (q, h2) = refused_not (is_empty (trim_space raw.query)) _ _ e h1 in
      let (r, h3) = refused_not (is_empty (trim_space raw.timestamp)) _ _ e h2 in
      decode_time-IsWellFormed raw (parse_time (trim_space raw.timestamp)) e p q h3

  -- An event that the decoder accepts has an identifier that is not blank, a query that is not blank,
  -- and its identifier and the texts about its actor have no spaces at their ends.
  pub decode-IsWellFormed :
      (payload : Text) (e : KafkaSearchEvent)
      → decode unmarshal parse_time payload ≡ ok e
      → IsWellFormed e
  unfolding decode
  decode-IsWellFormed payload e h = decode_raw-IsWellFormed (unmarshal payload) e h
