-- ===== src/Producer/Decoded.antt =====
-- The producer's events at the other end of Kafka: the decoder of the service takes them.
use wb_test_task.Base.{
  ℕ, ◌/◌, ◌%◌, ◌<◌, ◌≡◌, refl, ap, ◌∙◌, false, ◌++◌, List, [], ◌∷◌, Option, none, some, arith, inl,
  inr, Bool-cases, subst,
}
use wb_test_task.Base.Int.{pos, pos_part, leb_ℤ}
use wb_test_task.Base.Text.{Text, codes}
use wb_test_task.Runtime.{Result, ok, Time}
use wb_test_task.Unicode.{is_space, trim_space, trim_right, trim_space_visible}
use wb_test_task.Unicode.Format.{hex_digit, hex_encode, AreBytes}
use wb_test_task.Normalizer.{is_empty}
use wb_test_task.Kafka.Decoder.{RawSearchEvent, decode, decode_raw, decode_time}
use wb_test_task.Producer.{
  Rand, ProducedEvent, Flags, new_event_id, check_flags, popular_query, rare_query, weighted_query,
  pool_input, generate_event_input,
}
use wb_test_task.Producer.Loop.{produced_event}

-- The two structs have the same JSON fields.
abbrev pub as_raw : ProducedEvent → RawSearchEvent
as_raw e = record {
  event_id = e.event_id;
  query = e.query;
  user_id = e.user_id;
  session_id = e.session_id;
  ip = e.ip;
  user_agent = e.user_agent;
  timestamp = e.timestamp;
}

-- A text of visible characters.
abbrev pub IsVisible : Text → Type 0
IsVisible [] = Unit
IsVisible (r ∷ s) = (is_space r ≡ false) × IsVisible s

trim_right-IsVisible : (s : Text) → IsVisible s → trim_right s ≡ s
unfolding trim_right
trim_right-IsVisible [] h = refl
trim_right-IsVisible (r ∷ []) (p, h) = rw p
trim_right-IsVisible (r ∷ x ∷ s) (p, h) = rw (trim_right-IsVisible (x ∷ s) h)

hex_digit-visible : (n : ℕ) → n < 16 → is_space (hex_digit n) ≡ false
unfolding is_space hex_digit
hex_digit-visible n h = ground arith

hex_encode-IsVisible : (bytes : List ℕ) → AreBytes bytes → IsVisible (hex_encode bytes)
unfolding hex_encode
hex_encode-IsVisible [] h = tt
hex_encode-IsVisible (b ∷ bytes) (p, h) = (
  hex_digit-visible (b / 16) (omega arith),
  (hex_digit-visible (b % 16) (omega arith), hex_encode-IsVisible bytes h),
)

abbrev event_id_of : List ℕ → Text
event_id_of bytes = codes "evt_" ++ hex_encode bytes

trim_space-event_id :
    (bytes : List ℕ) → AreBytes bytes → trim_space (event_id_of bytes) ≡ event_id_of bytes
unfolding is_space
trim_space-event_id bytes h =
    trim_space_visible b'e' (codes "vt_" ++ hex_encode bytes) refl
    ∙ ap (λ t. b'e' ∷ t)
        (trim_right-IsVisible (codes "vt_" ++ hex_encode bytes)
          (refl, (refl, (refl, hex_encode-IsVisible bytes h))))

event_id-trimmed :
    (bytes : List ℕ) (event_id : Text)
    → AreBytes bytes
    → new_event_id (ok bytes) ≡ ok event_id
    → (trim_space event_id ≡ event_id) × (is_empty (trim_space event_id) ≡ false)
unfolding new_event_id
event_id-trimmed bytes event_id h made =
    let same : event_id_of bytes ≡ event_id = cc in
    let trimmed = trim_space-event_id bytes h in
    subst (λ id. (trim_space id ≡ id) × (is_empty (trim_space id) ≡ false)) same
      (trimmed, rw trimmed refl)

-- A query that is not blank.
abbrev pub IsQuery : Text → Type 0
IsQuery query = is_empty (trim_space query) ≡ false

visible-IsQuery : (r : ℕ) (s : Text) → is_space r ≡ false → IsQuery (r ∷ s)
visible-IsQuery r s h = rw (trim_space_visible r s h) refl

popular-IsQuery : (i : ℕ) → IsQuery (popular_query i)
unfolding is_space
popular-IsQuery i = visible-IsQuery b'p' _ refl

rare-IsQuery : (i : ℕ) → IsQuery (rare_query i)
unfolding is_space
rare-IsQuery i = visible-IsQuery b'r' _ refl

module _ (rand : Rand) where
  open rand use {Rng, float64, intn, less, nought, four_fifths, one}

  weighted_query-IsQuery : (n : ℕ) (rng : Rng) → IsQuery (weighted_query rand n rng).0
  unfolding weighted_query
  weighted_query-IsQuery n rng = elim (Bool-cases (less (float64 rng).0 four_fifths)) [
    | inl e ↦ rw e (popular-IsQuery _)
    | inr e ↦ rw e (rare-IsQuery _)
  ]

  pool_input-IsQuery :
      (flags : Flags rand) (query : Text) (rng : Rng)
      → IsQuery query
      → IsQuery (pool_input rand flags query rng).0.query
  unfolding pool_input is_space
  pool_input-IsQuery flags query rng q = elim (Bool-cases (less (float64 rng).0 flags.bot_ratio)) [
    | inl e ↦ rw e (visible-IsQuery b'p' (codes "opular-query-000") refl)
    | inr e ↦ rw e q
  ]

  checked-IsQuery : (flags : Flags rand) → check_flags rand flags ≡ none → IsQuery flags.query
  unfolding check_flags
  checked-IsQuery flags e = ground arith

  generated-IsQuery :
      (flags : Flags rand) (rng : Rng)
      → check_flags rand flags ≡ none
      → IsQuery (generate_event_input rand flags rng).0.query
  unfolding generate_event_input
  generated-IsQuery flags rng e = elim (Bool-cases (leb_ℤ flags.query_pool_size (pos 0))) [
    | inl x ↦ rw x (checked-IsQuery flags e)
    | inr x ↦ rw x (
        pool_input-IsQuery flags (weighted_query rand (pos_part flags.query_pool_size) rng).0
          (weighted_query rand (pos_part flags.query_pool_size) rng).1
          (weighted_query-IsQuery (pos_part flags.query_pool_size) rng))
  ]

  decode_raw-taken :
      (unmarshal : Text → Option RawSearchEvent) (parse_time : Text → Option Time)
      (raw : RawSearchEvent) (t : Time)
      → is_empty (trim_space raw.event_id) ≡ false
      → IsQuery raw.query
      → is_empty (trim_space raw.timestamp) ≡ false
      → parse_time (trim_space raw.timestamp) ≡ some t
      → decode_raw unmarshal parse_time (some raw) ≡ decode_time unmarshal parse_time raw (some t)
  decode_raw-taken unmarshal parse_time raw t a b c d = rw (a, b, c, d) refl

  -- Where json.Unmarshal reads back what json.Marshal wrote, and time.Parse takes the text of the clock,
  -- which is not blank, the decoder takes each event of a producer whose flags pass its checks: with the
  -- identifier that was made of the random bytes, the generated query and that time, and the other
  -- texts trimmed.
  pub decode-produced :
      (marshal : ProducedEvent → Result Text) (unmarshal : Text → Option RawSearchEvent)
      (parse_time : Text → Option Time) (flags : Flags rand) (rng : Rng) (bytes : List ℕ)
      (now payload event_id : Text) (t : Time)
      → ((e : ProducedEvent) (p : Text) → marshal e ≡ ok p → unmarshal p ≡ some (as_raw e))
      → is_empty (trim_space now) ≡ false
      → parse_time (trim_space now) ≡ some t
      → check_flags rand flags ≡ none
      → AreBytes bytes
      → new_event_id (ok bytes) ≡ ok event_id
      → marshal (produced_event event_id (generate_event_input rand flags rng).0 now) ≡ ok payload
      → decode unmarshal parse_time payload
        ≡ ok (record {
          event_id = event_id;
          query = (generate_event_input rand flags rng).0.query;
          user_id = trim_space (generate_event_input rand flags rng).0.user_id;
          session_id = trim_space (generate_event_input rand flags rng).0.session_id;
          ip = trim_space (generate_event_input rand flags rng).0.ip;
          user_agent = trim_space (generate_event_input rand flags rng).0.user_agent;
          timestamp = t;
        })
  unfolding decode new_event_id
  decode-produced marshal unmarshal parse_time flags rng bytes now payload event_id t reads full
        parsed checked small made wrote =
      let e = produced_event event_id (generate_event_input rand flags rng).0 now in
      let (trimmed, some_id) = event_id-trimmed bytes event_id small made in
      ap (decode_raw unmarshal parse_time) (reads e payload wrote)
      ∙ decode_raw-taken unmarshal parse_time (as_raw e) t some_id
          (generated-IsQuery flags rng checked) full parsed
      ∙ ap
          (λ id. ok (record {
            event_id = id;
            query = e.query;
            user_id = trim_space e.user_id;
            session_id = trim_space e.session_id;
            ip = trim_space e.ip;
            user_agent = trim_space e.user_agent;
            timestamp = t;
          }))
          trimmed
