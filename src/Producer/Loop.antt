-- ===== src/Producer/Loop.antt =====
-- The loop of `run` in cmd/producer/main.go.
use wb_test_task.Base.{
  ℕ, zero, suc, ◌+◌, ◌-◌, ◌&&◌, Option, none, some, List, [], ◌∷◌, if◌then◌else◌, ltb,
}
use wb_test_task.Base.Int.{pos, pos_part, ltb_ℤ}
use wb_test_task.Base.Text.{Text}
use wb_test_task.Runtime.{Context, Error, Result, ok, err}
use wb_test_task.Producer.{
  Rand, EventInput, ProducedEvent, Refusal, Flags, new_event_id, generate_event_input, check_flags,
}

-- The key and the value of a kafka.Message.
pub record SentMessage : Type 0 where
  pub key : Text
  pub payload : Text

-- What the outside answers in a round: rand.Read, the clock as text, WriteMessages, and ctx.Err() when
-- the pause ends.
pub record Moment : Type 0 where
  pub random_bytes : Result (List ℕ)
  pub now : Text
  pub written : Option Error
  pub pause : Context

pub data LoopOutcome : Type 0 where
  goes_on : LoopOutcome
  interrupted : LoopOutcome
  failed : Error → LoopOutcome

pub data ProducerResult : Type 0 where
  refused : Refusal → ProducerResult
  stopped : Error → ProducerResult
  finished : ℕ → ProducerResult

abbrev pub produced_event : Text → EventInput → Text → ProducedEvent
produced_event event_id generated now = record {
  event_id = event_id;
  query = generated.query;
  user_id = generated.user_id;
  session_id = generated.session_id;
  ip = generated.ip;
  user_agent = generated.user_agent;
  timestamp = now;
}

module _ (rand : Rand) (marshal : ProducedEvent → Result Text) where
  open rand use {Rng}

  -- The random source, the number of events sent and the messages written, the last one first.
  pub record Sender : Type 0 where
    pub rng : Rng
    pub sent : ℕ
    pub written : List SentMessage

  -- what follows a message that was written
  abbrev pub after_write : Flags rand → ℕ → Context → Sender → Sender × LoopOutcome
  after_write flags i none s = (s, goes_on)
  after_write flags i (some stop) s = (
    s,
    if ltb_ℤ (pos 0) flags.interval && ltb i (pos_part flags.count - 1)
        then interrupted
        else goes_on,
  )

  abbrev pub write_event :
      Flags rand → ℕ → Moment → Text → Result Text → Sender → Sender × LoopOutcome
  write_event flags i m key (err e) s = (s, failed e)
  write_event flags i m key (ok payload) s = elim m.written [
    | some e ↦ (s, failed e)
    | none ↦ after_write flags i m.pause (record s {
      sent = s.sent + 1;
      written = record { key = key; payload = payload } ∷ s.written;
    })
  ]

  abbrev pub send_event : Flags rand → ℕ → Moment → Result Text → Sender → Sender × LoopOutcome
  send_event flags i m (err e) s = (s, failed e)
  send_event flags i m (ok event_id) s =
      let (generated, rng') = generate_event_input rand flags s.rng in
      let event = produced_event event_id generated m.now in
      write_event flags i m event.user_id (marshal event) (record s { rng = rng' })

  -- one round of the loop
  unfoldable pub send_round : Flags rand → ℕ → Moment → Sender → Sender × LoopOutcome
  unfolding new_event_id generate_event_input
  send_round flags i m s = send_event flags i m (new_event_id m.random_bytes) s

  -- the loop, with the rounds left and the number of the next one
  unfoldable pub send_loop : Flags rand → (ℕ → Moment) → ℕ → ℕ → Sender → Sender × LoopOutcome
  unfolding send_round
  send_loop flags moments zero i s = (s, goes_on)
  send_loop flags moments (suc left) i s =
      let (s', outcome) = send_round flags i (moments i) s in
      elim outcome [
        | goes_on ↦ send_loop flags moments left (i + 1) s'
        | interrupted ↦ (s', interrupted)
        | failed e ↦ (s', failed e)
      ]

  abbrev pub producer_result : Sender × LoopOutcome → ProducerResult
  producer_result (s, goes_on) = finished s.sent
  producer_result (s, interrupted) = finished s.sent
  producer_result (s, failed e) = stopped e

  abbrev pub start : Rng → Sender
  start rng = record { rng = rng; sent = 0; written = [] }

  -- run, after the flags have been parsed
  unfoldable pub run : Flags rand → (ℕ → Moment) → Rng → ProducerResult
  unfolding check_flags send_loop
  run flags moments rng = elim (check_flags rand flags) [
    | some why ↦ refused why
    | none ↦ producer_result (send_loop flags moments (pos_part flags.count) 0 (start rng))
  ]
