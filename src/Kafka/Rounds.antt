-- ===== src/Kafka/Rounds.antt =====
-- What a round of the loop of Run commits.
use wb_test_task.Base.{
  ◌+◌, ◌<◌, ◌≡◌, refl, sym, ap, ◌∙◌, Bool, true, false, Option, none, some, List, ◌∷◌,
  if◌then◌else◌, inl, inr, Bool-cases,
}
use wb_test_task.Base.Int.{pos_part}
use wb_test_task.Base.Text.{codes}
use wb_test_task.Runtime.{Error, is_context_error}
use wb_test_task.Kafka.{Message}
use wb_test_task.Kafka.Consumer.{
  Consumer, Answers, Round, fetch_failed, fetched, commit_with_retry, Outcome, stopped,
  commit_failed, goes_on, run_round, note_call, commit_outcome, processed_outcome, kafka_message,
}
use wb_test_task.Kafka.Commits.{
  is_done, Processed, process_message-Processed, Committed, commit_with_retry-Committed,
}

abbrev pub done_first : Round → List Message → List Message
done_first (fetch_failed e pause) before = before
done_first (fetched message a) before =
    if is_done a.decoded a.handled_with then message ∷ before else before

-- A round that goes on has committed its message if that is done with; one that ends the loop has
-- committed nothing.
abbrev pub Advanced : Round → Consumer → Consumer × Outcome → Type 0
Advanced r c (d, goes_on) =
    (d.committed ≡ done_first r c.committed) × (d.commit_retries ≡ c.commit_retries)
Advanced r c (d, stopped) = d.committed ≡ c.committed
Advanced r c (d, commit_failed e) = d.committed ≡ c.committed

commit_advances :
    (message : Message) (a : Answers) (c d : Consumer) (r : Consumer × Option Error)
    → is_done a.decoded a.handled_with ≡ true
    → d.committed ≡ c.committed
    → d.commit_retries ≡ c.commit_retries
    → Committed a.commit message 1 (1 + pos_part d.commit_retries) d r
    → Advanced (fetched message a) c (commit_outcome r)
commit_advances message a c d (x, none) done p q (m, n, s) =
    rw done (m ∙ ap (λ w. message ∷ w) p, n ∙ q)
commit_advances message a c d (x, some e) done p q (m, n) = elim (Bool-cases (is_context_error e)) [
  | inl y ↦ rw y (m ∙ p)
  | inr y ↦ rw y (m ∙ p)
]

Processed-advances :
    (message : Message) (a : Answers) (c : Consumer) (r : Consumer × Bool × Option Error)
    → 0 < pos_part c.commit_retries
    → Processed a c r
    → Advanced (fetched message a) c (processed_outcome a.commit message r)
Processed-advances message a c (d, true, none) pos_retries (p, q, done, v) =
    commit_advances message a c d (commit_with_retry a.commit message d) (sym done) p q
      (commit_with_retry-Committed a.commit message d (rw q pos_retries))
Processed-advances message a c (d, false, none) pos_retries (p, q, done, v) = cc (v.1 refl)
Processed-advances message a c (d, true, some e) pos_retries (p, q, done, v) = cc (v.0 refl)
Processed-advances message a c (d, false, some e) pos_retries (p, q, done, v) =
    elim (Bool-cases (is_context_error e)) [ inl y ↦ rw y p | inr y ↦ rw (y, sym done) (p, q) ]

received-keeps :
    (c : Consumer)
    → ((note_call (kafka_message (codes "received")) c).committed ≡ c.committed)
      × ((note_call (kafka_message (codes "received")) c).commit_retries ≡ c.commit_retries)
unfolding note_call
received-keeps c = (refl, refl)

pub round_advances :
    (r : Round) (c : Consumer) → 0 < pos_part c.commit_retries → Advanced r c (run_round r c)
unfolding run_round note_call
round_advances (fetch_failed e none) c p = elim (Bool-cases (is_context_error e)) [
  | inl y ↦ rw y refl
  | inr y ↦ rw y (refl, refl)
]
round_advances (fetch_failed e (some stop)) c p = elim (Bool-cases (is_context_error e)) [
  | inl y ↦ rw y refl
  | inr y ↦ rw y refl
]
round_advances (fetched message a) c p =
    Processed-advances message a (note_call (kafka_message (codes "received")) c) _ p
      (process_message-Processed a (note_call (kafka_message (codes "received")) c))
