-- ===== src/Producer.antt =====
-- cmd/producer/main.go: the producer of test events. The random source of math/rand and float64 are a
-- parameter; the bytes of crypto/rand, the clock, json.Marshal and the Kafka writer enter as what they
-- answer in a round of the loop. The log line is left out.
pub mod Brokers
pub mod Inputs
pub mod Loop
pub mod Sending
pub mod Decoded
use wb_test_task.Base.{
  ℕ, zero, suc, ◌+◌, ◌-◌, ◌*◌, ◌/◌, ◌%◌, ◌<◌, Bool, true, false, not, ◌&&◌, ◌||◌, Option, none,
  some, List, [], ◌∷◌, ◌++◌, length, ltb, ◌==◌, if◌then◌else◌,
}
use wb_test_task.Base.Int.{ℤ, pos, pos_part, leb_ℤ, ltb_ℤ}
use wb_test_task.Base.Text.{Text, codes}
use wb_test_task.Runtime.{Context, Error, Result, ok, err, Duration}
use wb_test_task.Unicode.{trim_space}
use wb_test_task.Unicode.Format.{decimal, decimal_padded, hex_encode}
use wb_test_task.Normalizer.{is_empty}

abbrev pub comma : ℕ
comma = 44

abbrev pub put_first : ℕ → List Text → List Text
put_first r [] = (r ∷ []) ∷ []
put_first r (part ∷ parts) = (r ∷ part) ∷ parts

-- strings.Split by a comma
unfoldable pub split : Text → List Text
split [] = [] ∷ []
split (r ∷ s) = if r == comma then [] ∷ split s else put_first r (split s)

-- the loop of splitBrokers
unfoldable pub keep_brokers : List Text → List Text
unfolding trim_space
keep_brokers [] = []
keep_brokers (part ∷ parts) =
    let broker = trim_space part in
    if is_empty broker then keep_brokers parts else broker ∷ keep_brokers parts

-- splitBrokers
unfoldable pub split_brokers : Text → List Text
unfolding split keep_brokers
split_brokers value = keep_brokers (split value)

-- newEventID, for the bytes that rand.Read gives or its error
unfoldable pub new_event_id : Result (List ℕ) → Result Text
unfolding hex_encode
new_event_id (err e) = err e
new_event_id (ok bytes) = ok (codes "evt_" ++ hex_encode bytes)

-- math/rand, with the comparison of its float64 values. Intn(n) gives a number below n.
pub record Rand : Type 1 where
  pub Rng : Type 0
  pub Float : Type 0
  pub float64 : Rng → Float × Rng
  pub intn : ℕ → Rng → ℕ × Rng
  pub less : Float → Float → Bool
  pub nought : Float
  pub four_fifths : Float
  pub one : Float
  pub intn_below : (n : ℕ) (r : Rng) → 0 < n → (intn n r).0 < n

-- eventInput
pub record EventInput : Type 0 where
  pub query : Text
  pub user_id : Text
  pub session_id : Text
  pub ip : Text
  pub user_agent : Text

-- searchEvent
pub record ProducedEvent : Type 0 where
  pub event_id : Text
  pub query : Text
  pub user_id : Text
  pub session_id : Text
  pub ip : Text
  pub user_agent : Text
  pub timestamp : Text

pub data Refusal : Type 0 where
  broker_required topic_required query_required count_not_positive : Refusal
  pool_negative users_not_positive bot_ratio_out_of_range : Refusal

abbrev pub popular_query : ℕ → Text
popular_query i = codes "popular-query-" ++ decimal_padded 3 i

abbrev pub rare_query : ℕ → Text
rare_query i = codes "rare-query-" ++ decimal_padded 3 i

abbrev pub user_name : ℕ → Text
user_name i = codes "user-" ++ decimal_padded 5 i

abbrev pub session_name : ℕ → Text
session_name i = codes "session-" ++ decimal_padded 5 i

abbrev pub address : ℕ → ℕ → Text
address a b = codes "10.0." ++ (decimal a ++ (codes "." ++ decimal b))

abbrev pub or_text : Text → Text → Text
or_text text other = if is_empty text then other else text

-- max(a, b)
abbrev pub max_nat : ℕ → ℕ → ℕ
max_nat a b = if ltb a b then b else a

module _ (rand : Rand) where
  open rand use {Rng, Float, float64, intn, less, nought, four_fifths, one}

  -- The flags, of which eventInputConfig is a part.
  pub record Flags : Type 0 where
    pub brokers_text : Text
    pub topic : Text
    pub query : Text
    pub user_id : Text
    pub session_id : Text
    pub ip : Text
    pub user_agent : Text
    pub count : ℤ
    pub interval : Duration
    pub query_pool_size : ℤ
    pub users : ℤ
    pub bot_ratio : Float

  -- weightedQuery
  unfoldable pub weighted_query : ℕ → Rng → Text × Rng
  weighted_query pool_size rng =
      let popular_count = max_nat 1 (pool_size / 10) in
      let (x, rng') = float64 rng in
      if less x four_fifths
      then (let (i, rng'') = intn popular_count rng' in (popular_query i, rng''))
      else (let (i, rng'') = intn pool_size rng' in (rare_query i, rng''))

  -- what generateEventInput makes of the query of the pool
  unfoldable pub pool_input : Flags → Text → Rng → EventInput × Rng
  pool_input flags query rng =
      let (x, rng') = float64 rng in
      let (i, rng'') = intn (pos_part flags.users) rng' in
      if less x flags.bot_ratio
      then (
        record {
          query = codes "popular-query-000";
          user_id = codes "bot-actor";
          session_id = codes "bot-session";
          ip = codes "10.255.0.1";
          user_agent = flags.user_agent;
        },
        rng',
      )
      else (
        record {
          query = query;
          user_id = or_text flags.user_id (user_name i);
          session_id = or_text flags.session_id (session_name i);
          ip = or_text flags.ip (address (i / 255 % 255) (i % 255));
          user_agent = flags.user_agent;
        },
        rng'',
      )

  -- generateEventInput
  unfoldable pub generate_event_input : Flags → Rng → EventInput × Rng
  unfolding weighted_query pool_input
  generate_event_input flags rng =
      if leb_ℤ flags.query_pool_size (pos 0)
      then (
        record {
          query = flags.query;
          user_id = flags.user_id;
          session_id = flags.session_id;
          ip = flags.ip;
          user_agent = flags.user_agent;
        },
        rng,
      )
      else (let (query, rng') = weighted_query (pos_part flags.query_pool_size) rng in
          pool_input flags query rng')

  -- the checks of run
  unfoldable pub check_flags : Flags → Option Refusal
  unfolding split_brokers trim_space
  check_flags flags =
      if length (split_brokers flags.brokers_text) == 0
      then some broker_required
      else if is_empty (trim_space flags.topic)
      then some topic_required
      else if is_empty (trim_space flags.query)
      then some query_required
      else if leb_ℤ flags.count (pos 0)
      then some count_not_positive
      else if ltb_ℤ flags.query_pool_size (pos 0)
      then some pool_negative
      else if leb_ℤ flags.users (pos 0)
      then some users_not_positive
      else if less flags.bot_ratio nought || less one flags.bot_ratio
      then some bot_ratio_out_of_range
      else none
