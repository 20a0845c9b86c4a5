-- ===== src/Examples/Producing.antt =====
-- The producer, with a random source that counts up and a payload that holds the lengths of the texts.
use native.Mathlib.Nat.{mod-lt}
use wb_test_task.Base.{
  ℕ, zero, suc, ◌+◌, ◌%◌, ◌≡◌, ◌⊎◌, refl, ap, subst, [], ◌∷◌, ◌++◌, Option, none, some, length, ltb,
  take, arith,
}
use wb_test_task.Base.Prop.{All}
use wb_test_task.Base.Int.{pos}
use wb_test_task.Base.Text.{Text, codes}
use wb_test_task.Runtime.{Result, ok, Time}
use wb_test_task.Unicode.{trim_space}
use wb_test_task.Unicode.Format.{hex_encode, hex_digit}
use wb_test_task.Kafka.Decoder.{RawSearchEvent, decode}
use wb_test_task.Producer.{
  Rand, EventInput, ProducedEvent, Flags, new_event_id, split_brokers, check_flags,
  generate_event_input,
}
use wb_test_task.Producer.Loop.{Moment, finished, produced_event, send_loop, start, run}
use wb_test_task.Producer.Brokers.{IsBroker, HasNoComma, join, split_brokers-join}
use wb_test_task.Producer.Inputs.{IsPoolQuery, IsBot, IsPoolUser, generate_event_input-drawn}
use wb_test_task.Producer.Sending.{Added, send_loop-Added, run-finishes}
use wb_test_task.Producer.Decoded.{as_raw, decode-produced}

abbrev counting : Rand
counting = record {
  Rng = ℕ;
  Float = ℕ;
  float64 = λ r. (r % 10, r + 1);
  intn = λ n r. (r % n, r + 1);
  less = ltb;
  nought = 0;
  four_fifths = 8;
  one = 10;
  intn_below = λ n r h. mod-lt r h;
}

abbrev flags : Flags counting
flags = record {
  brokers_text = codes "kafka:9092";
  topic = codes "search-events";
  query = codes "tea";
  user_id = [];
  session_id = [];
  ip = [];
  user_agent = codes "agent";
  count = pos 3;
  interval = pos 0;
  query_pool_size = pos 20;
  users = pos 5;
  bot_ratio = 1;
}

two_brokers : All IsBroker (codes "a:1" ∷ codes "b:2" ∷ [])
unfolding trim_space
two_brokers = ((refl, refl), ((refl, refl), tt))

two_plain : All HasNoComma (codes "a:1" ∷ codes "b:2" ∷ [])
two_plain = ((refl, (refl, (refl, tt))), ((refl, (refl, (refl, tt))), tt))

split_brokers-join_example :
    All IsBroker (split_brokers (codes " a:1, ,b:2"))
    × (split_brokers (join (codes "a:1" ∷ codes "b:2" ∷ [])) ≡ codes "a:1" ∷ codes "b:2" ∷ [])
split_brokers-join_example =
    split_brokers-join (codes " a:1, ,b:2") (codes "a:1") (codes "b:2" ∷ []) two_brokers two_plain

generate_event_input-drawn_example :
    IsPoolQuery 20 (generate_event_input counting flags 7).0.query
    × (IsBot (generate_event_input counting flags 7).0
        ⊎ IsPoolUser counting flags (generate_event_input counting flags 7).0)
generate_event_input-drawn_example =
    generate_event_input-drawn counting flags 7 (omega arith) (omega arith)

-- A text behind its length.
abbrev write : Text → Text → Text
write text rest = length text ∷ (text ++ rest)

unfoldable drop : ℕ → Text → Text
drop zero text = text
drop (suc n) [] = []
drop (suc n) (r ∷ text) = drop n text

unfoldable read : Text → Text × Text
read [] = ([], [])
read (n ∷ rest) = (take n rest, drop n rest)

abbrev encode : ProducedEvent → Text
encode e = write e.event_id (
    write e.query (
      write e.user_id
        (write e.session_id (write e.ip (write e.user_agent (write e.timestamp []))))))

abbrev marshal : ProducedEvent → Result Text
marshal e = ok (encode e)

unfoldable unmarshal : Text → Option RawSearchEvent
unmarshal payload =
    let (event_id, p1) = read payload in
    let (query, p2) = read p1 in
    let (user_id, p3) = read p2 in
    let (session_id, p4) = read p3 in
    let (ip, p5) = read p4 in
    let (user_agent, p6) = read p5 in
    let (timestamp, p7) = read p6 in
    some (record {
      event_id = event_id;
      query = query;
      user_id = user_id;
      session_id = session_id;
      ip = ip;
      user_agent = user_agent;
      timestamp = timestamp;
    })

read-write : (text rest : Text) → read (write text rest) ≡ (text, rest)
unfolding read drop
read-write [] rest = refl
read-write (r ∷ text) rest =
    let e : read (write text rest) ≡ (text, rest) = read-write text rest in
    ap (λ x. (r ∷ x.0, x.1)) e

unmarshal-encode : (e : ProducedEvent) → unmarshal (encode e) ≡ some (as_raw e)
unfolding unmarshal
unmarshal-encode e =
    let w7 = [] in
    let w6 = write e.timestamp w7 in
    let w5 = write e.user_agent w6 in
    let w4 = write e.ip w5 in
    let w3 = write e.session_id w4 in
    let w2 = write e.user_id w3 in
    let w1 = write e.query w2 in
    rw
      (
        read-write e.event_id w1,
        read-write e.query w2,
        read-write e.user_id w3,
        read-write e.session_id w4,
        read-write e.ip w5,
        read-write e.user_agent w6,
        read-write e.timestamp w7,
      )
      refl

unmarshal-marshal :
    (e : ProducedEvent) (p : Text) → marshal e ≡ ok p → unmarshal p ≡ some (as_raw e)
unmarshal-marshal e p h =
    let same : encode e ≡ p = cc in
    subst (λ x. unmarshal x ≡ some (as_raw e)) same (unmarshal-encode e)

total : (e : ProducedEvent) → (payload : Text) × (marshal e ≡ ok payload)
total e = (_, refl)

abbrev moments : ℕ → Moment
moments i = record {
  random_bytes = ok (1 ∷ i % 256 ∷ []);
  now = codes "now";
  written = none;
  pause = none;
}

send_loop-Added_example :
    Added counting marshal 3
      (start counting marshal 7)
      (send_loop counting marshal flags moments 3 0 (start counting marshal 7))
send_loop-Added_example =
    send_loop-Added counting marshal flags moments 3 0 (start counting marshal 7)

flags_checked : check_flags counting flags ≡ none
unfolding check_flags
flags_checked = refl

run-finishes_example : run counting marshal flags moments 7 ≡ finished 3
run-finishes_example =
    run-finishes counting marshal flags moments 7 flags_checked total (λ j. ((_, refl), refl, refl))

abbrev parsed : Text → Option Time
parsed text = some (pos 62135596900000000000)

abbrev generated : EventInput
generated = (generate_event_input counting flags 7).0

decode-produced_example :
    decode unmarshal parsed (encode (produced_event (codes "evt_01ff") generated (codes "now")))
    ≡ ok (record {
      event_id = codes "evt_01ff";
      query = generated.query;
      user_id = trim_space generated.user_id;
      session_id = trim_space generated.session_id;
      ip = trim_space generated.ip;
      user_agent = trim_space generated.user_agent;
      timestamp = pos 62135596900000000000;
    })
unfolding new_event_id hex_encode hex_digit trim_space
decode-produced_example =
    decode-produced counting marshal unmarshal parsed flags 7 (1 ∷ 255 ∷ []) (codes "now")
      (encode (produced_event (codes "evt_01ff") generated (codes "now"))) (codes "evt_01ff")
      (pos 62135596900000000000) unmarshal-marshal refl refl flags_checked
      (omega arith, (omega arith, tt)) refl refl
