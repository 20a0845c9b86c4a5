-- ===== src/Kafka/Commits.antt =====
-- Which messages the Consumer commits: those that it has processed or that are invalid, in the order
-- in which they were fetched, and none that failed.
use wb_test_task.Base.{
  ℕ, zero, suc, ◌+◌, ◌≤◌, ◌<◌, ◌≡◌, ◌↔◌, refl, ap, ◌∙◌, Bool, true, false, Option, none, some, List,
  [], ◌∷◌, if◌then◌else◌, arith, inl, inr, Bool-cases,
}
use wb_test_task.Base.Int.{pos_part}
use wb_test_task.Base.Text.{codes}
use wb_test_task.Runtime.{
  Context, Error, context, empty_query, query_too_long, invalid_timestamp, event_from_future, other,
  decode_failed, validation_failed, Result, ok, err, Duration, is_context_error,
}
use wb_test_task.Aggregator.{is_validation_error}
use wb_test_task.Kafka.{KafkaSearchEvent, Message}
use wb_test_task.Kafka.Consumer.{
  Consumer, Answers, Round, fetch_failed, fetched, decoding_failed, handler_answered,
  process_message, commit_loop, commit_with_retry, note_call, kafka_message, commit_error,
}

-- A message is done with: it is invalid, or the handler took it or refused it as invalid.
abbrev pub is_done : Result KafkaSearchEvent → Option Error → Bool
is_done (err decode_failed) answer = true
is_done (err (validation_failed why)) answer = true
is_done (err (context e)) answer = false
is_done (err empty_query) answer = false
is_done (err query_too_long) answer = false
is_done (err invalid_timestamp) answer = false
is_done (err event_from_future) answer = false
is_done (err (other n)) answer = false
is_done (ok event) none = true
is_done (ok event) (some empty_query) = true
is_done (ok event) (some query_too_long) = true
is_done (ok event) (some invalid_timestamp) = true
is_done (ok event) (some event_from_future) = true
is_done (ok event) (some (context e)) = false
is_done (ok event) (some decode_failed) = false
is_done (ok event) (some (validation_failed why)) = false
is_done (ok event) (some (other n)) = false

-- The messages of the rounds that are done with, the last one first, before those of `before`.
unfoldable pub done_messages : List Round → List Message → List Message
done_messages [] before = before
done_messages (fetch_failed e pause ∷ rounds) before = done_messages rounds before
done_messages (fetched message a ∷ rounds) before =
    done_messages rounds (if is_done a.decoded a.handled_with then message ∷ before else before)

-- What processing leaves of the consumer, and when it asks for a commit.
abbrev pub Processed : Answers → Consumer → Consumer × Bool × Option Error → Type 0
Processed a c (d, should_commit, failure) =
    (d.committed ≡ c.committed)
    × (d.commit_retries ≡ c.commit_retries)
    × (should_commit ≡ is_done a.decoded a.handled_with)
    × ((should_commit ≡ true) ↔ (failure ≡ none))

asks : (true ≡ true) ↔ (◌≡◌ {A = Option Error} none none)
asks = (λ _. refl, λ _. refl)

refuses : (e : Error) → (false ≡ true) ↔ (◌≡◌ {A = Option Error} (some e) none)
refuses e = (λ p. cc, λ p. cc)

abbrev answers :
    Result KafkaSearchEvent → Option Error → Duration → (ℕ → Option Error × Context) → Answers
answers decoded answer elapsed commit = record {
  decoded = decoded;
  handled_with = answer;
  elapsed = elapsed;
  commit = commit;
}

module _ (t : Duration) (k : ℕ → Option Error × Context) (c : Consumer) where
  Takes : Result KafkaSearchEvent → Option Error → Type 0
  Takes d h = Processed (answers d h t k) c (process_message (answers d h t k) c)

  process_refused : (e : Error) (h : Option Error) → Takes (err e) h
  unfolding Takes process_message note_call decoding_failed
  process_refused decode_failed h = (refl, refl, refl, asks)
  process_refused (validation_failed why) h = (refl, refl, refl, asks)
  process_refused (context e) h = (refl, refl, refl, refuses (context e))
  process_refused empty_query h = (refl, refl, refl, refuses empty_query)
  process_refused query_too_long h = (refl, refl, refl, refuses query_too_long)
  process_refused invalid_timestamp h = (refl, refl, refl, refuses invalid_timestamp)
  process_refused event_from_future h = (refl, refl, refl, refuses event_from_future)
  process_refused (other n) h = (refl, refl, refl, refuses (other n))

  process_handled : (event : KafkaSearchEvent) (h : Option Error) → Takes (ok event) h
  unfolding Takes process_message note_call handler_answered is_validation_error
  process_handled event none = (refl, refl, refl, asks)
  process_handled event (some empty_query) = (refl, refl, refl, asks)
  process_handled event (some query_too_long) = (refl, refl, refl, asks)
  process_handled event (some invalid_timestamp) = (refl, refl, refl, asks)
  process_handled event (some event_from_future) = (refl, refl, refl, asks)
  process_handled event (some (context e)) = (refl, refl, refl, refuses (context e))
  process_handled event (some decode_failed) = (refl, refl, refl, refuses decode_failed)
  process_handled event (some (validation_failed why)) =
      (refl, refl, refl, refuses (validation_failed why))
  process_handled event (some (other n)) = (refl, refl, refl, refuses (other n))

  process_any : (d : Result KafkaSearchEvent) (h : Option Error) → Takes d h
  process_any (ok event) h = process_handled event h
  process_any (err e) h = process_refused e h

-- processMessage asks for a commit exactly when the message is done with, which is when it answers
-- with no error, and commits nothing itself.
pub process_message-Processed : (a : Answers) (c : Consumer) → Processed a c (process_message a c)
unfolding Takes
process_message-Processed a c = process_any a.elapsed a.commit c a.decoded a.handled_with

-- A commit that is answered with no error has one of the attempts that succeeded, and the message is
-- then committed once; one that is answered with an error commits nothing.
abbrev pub Committed :
    (ℕ → Option Error × Context) → Message → ℕ → ℕ → Consumer → Consumer × Option Error → Type 0
Committed commit message first beyond c (d, none) =
    (d.committed ≡ message ∷ c.committed)
    × (d.commit_retries ≡ c.commit_retries)
    × ((i : ℕ) × (first ≤ i) × (i < beyond) × ((commit i).0 ≡ none))
Committed commit message first beyond c (d, some e) =
    (d.committed ≡ c.committed) × (d.commit_retries ≡ c.commit_retries)

Committed-later :
    (commit : ℕ → Option Error × Context) (message : Message) (first beyond : ℕ) (c d : Consumer)
    (r : Consumer × Option Error)
    → d.committed ≡ c.committed
    → d.commit_retries ≡ c.commit_retries
    → Committed commit message (first + 1) beyond d r
    → Committed commit message first beyond c r
Committed-later commit message first beyond c d (x, none) p q (a, b, (i, lo, hi, e)) =
    (a ∙ ap (λ m. message ∷ m) p, b ∙ q, (i, omega arith, hi, e))
Committed-later commit message first beyond c d (x, some e) p q (a, b) = (a ∙ p, b ∙ q)

abbrev failed_attempt : Consumer → Consumer
failed_attempt c = note_call (kafka_message (codes "failed")) (note_call commit_error c)

failed_attempt-keeps :
    (c : Consumer)
    → ((failed_attempt c).committed ≡ c.committed)
      × ((failed_attempt c).commit_retries ≡ c.commit_retries)
unfolding note_call
failed_attempt-keeps c = (refl, refl)

commit_step :
    (commit : ℕ → Option Error × Context) (message : Message) (left attempt : ℕ)
    (last : Option Error) (c : Consumer) (o : Option Error) (pause : Context)
    → (commit attempt).0 ≡ o
    → (commit attempt).1 ≡ pause
    → ((e : Error)
        → Committed commit message
            (attempt + 1)
            (attempt + suc left)
            (failed_attempt c)
            (commit_loop commit message left (attempt + 1) (some e) (failed_attempt c)))
    → Committed commit message attempt
        (attempt + suc left)
        c
        (commit_loop commit message (suc left) attempt last c)
unfolding commit_loop
commit_step commit message left attempt last c none pause p q later =
    rw (commit_loop, p) (refl, refl, (attempt, omega arith, omega arith, p))
commit_step commit message left attempt last c (some e) (some stop) p q later =
    elim (Bool-cases (is_context_error e)) [
      | inl x ↦ rw (commit_loop, p, q, x) (refl, refl)
      | inr x ↦ rw (commit_loop, p, q, x) (failed_attempt-keeps c)
    ]
commit_step commit message left attempt last c (some e) none p q later =
    elim (Bool-cases (is_context_error e)) [
      | inl x ↦ rw (commit_loop, p, q, x) (refl, refl)
      | inr x ↦
          let (a, b) = failed_attempt-keeps c in
          rw (commit_loop, p, q, x)
            (Committed-later commit message attempt (attempt + suc left) c (failed_attempt c)
              (commit_loop commit message left (attempt + 1) (some e) (failed_attempt c)) a b
              (later e))
    ]

commit_more :
    (commit : ℕ → Option Error × Context) (message : Message) (left attempt : ℕ) (e : Error)
    (c : Consumer)
    → Committed commit message attempt
        (attempt + left)
        c
        (commit_loop commit message left attempt (some e) c)
unfolding commit_loop
commit_more commit message zero attempt e c = (refl, refl)
commit_more commit message (suc left) attempt e c =
    commit_step commit message left attempt (some e) c _ _ refl refl (λ f.
      let same : attempt + suc left ≡ attempt + 1 + left = omega arith in
      rw same (commit_more commit message left (attempt + 1) f (failed_attempt c)))

first_commit :
    (commit : ℕ → Option Error × Context) (message : Message) (left : ℕ) (c : Consumer)
    → 0 < left
    → Committed commit message 1 (1 + left) c (commit_loop commit message left 1 none c)
first_commit commit message zero c p = absurd (omega arith)
first_commit commit message (suc left) c p =
    commit_step commit message left 1 none c _ _ refl refl (λ f.
      let same : 1 + suc left ≡ 2 + left = omega arith in
      rw same (commit_more commit message left 2 f (failed_attempt c)))

-- commitWithRetry with a positive number of retries answers with no error only after an attempt, among
-- as many as there are retries, that the reader answered with none, and the message is then committed
-- once; with an error, nothing is committed.
pub commit_with_retry-Committed :
    (commit : ℕ → Option Error × Context) (message : Message) (c : Consumer)
    → 0 < pos_part c.commit_retries
    → Committed commit message 1
        (1 + pos_part c.commit_retries)
        c
        (commit_with_retry commit message c)
unfolding commit_with_retry
commit_with_retry-Committed commit message c p =
    first_commit commit message (pos_part c.commit_retries) c p
