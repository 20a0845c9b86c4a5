-- ===== src/Kafka/Retries.antt =====
-- commitWithRetry gets through: it commits at the first attempt that the reader accepts, if nothing
-- ends it before.
use wb_test_task.Base.{
  ℕ, zero, suc, ◌+◌, ◌≤◌, ◌<◌, ◌≡◌, refl, ap, ◌∙◌, false, Option, none, some, ◌∷◌, arith,
  ℕ_discrete,
}
use wb_test_task.Base.Int.{pos_part}
use wb_test_task.Base.Text.{codes}
use wb_test_task.Runtime.{Context, Error, is_context_error}
use wb_test_task.Kafka.{Message}
use wb_test_task.Kafka.Consumer.{
  Consumer, commit_loop, commit_with_retry, note_call, kafka_message, commit_error,
}

-- The attempt fails for no reason of the context, and the pause after it ends on time.
abbrev pub IsRetried : Option Error × Context → Type 0
IsRetried (none, pause) = ⊥
IsRetried (some e, pause) = (is_context_error e ≡ false) × (pause ≡ none)

abbrev after_failed : Consumer → Consumer
after_failed c = note_call (kafka_message (codes "failed")) (note_call commit_error c)

module _ (commit : ℕ → Option Error × Context) (message : Message) (i : ℕ)
    (accepted : (commit i).0 ≡ none) where
  loop_commits :
      (left attempt : ℕ) (last : Option Error) (c : Consumer)
      → attempt ≤ i
      → i < attempt + left
      → ((k : ℕ) → attempt ≤ k → k < i → IsRetried (commit k))
      → ((commit_loop commit message left attempt last c).1 ≡ none)
        × ((commit_loop commit message left attempt last c).0.committed ≡ message ∷ c.committed)
  unfolding commit_loop note_call
  loop_commits zero attempt last c p q h = absurd (omega (arith, p, q))
  loop_commits (suc left) attempt last c p q h = elim (ℕ_discrete attempt i) [
    | yes e ↦ here e
    | no n ↦ failing (commit attempt) refl (h attempt (omega arith) (omega (arith, n))) (λ last'.
        loop_commits left (attempt + 1) last' (after_failed c) (omega (arith, n)) (omega arith)
          (λ k a b. h k (omega arith) b))
  ]
    where
      here :
          attempt ≡ i
          → ((commit_loop commit message (suc left) attempt last c).1 ≡ none)
            × ((commit_loop commit message (suc left) attempt last c).0.committed
                ≡ message ∷ c.committed)
      here e = let x : (commit attempt).0 ≡ none = rw e accepted in rw (commit_loop, x) (refl, refl)

      failing :
          (x : Option Error × Context)
          → commit attempt ≡ x
          → IsRetried x
          → ((last' : Option Error)
              → ((commit_loop commit message left (attempt + 1) last' (after_failed c)).1 ≡ none)
                × ((commit_loop commit message left
                      (attempt + 1)
                      last'
                      (after_failed c)).0.committed
                    ≡ message ∷ c.committed))
          → ((commit_loop commit message (suc left) attempt last c).1 ≡ none)
            × ((commit_loop commit message (suc left) attempt last c).0.committed
                ≡ message ∷ c.committed)
      failing (none, pause) e r later = absurd r
      failing (some x, pause) e (y, z) later =
          rw (commit_loop, ap (λ v. v.0) e, ap (λ v. v.1) e ∙ z, y) (later (some x))

-- When the reader accepts the commit at attempt `i` of those that the retries allow, and each attempt
-- before it fails with an error that is not of the context and is followed by a pause that is not cut
-- short, commitWithRetry answers with no error and has committed the message.
pub commit_with_retry-none :
    (commit : ℕ → Option Error × Context) (message : Message) (c : Consumer) (i : ℕ)
    → 1 ≤ i
    → i ≤ pos_part c.commit_retries
    → (commit i).0 ≡ none
    → ((k : ℕ) → 1 ≤ k → k < i → IsRetried (commit k))
    → ((commit_with_retry commit message c).1 ≡ none)
      × ((commit_with_retry commit message c).0.committed ≡ message ∷ c.committed)
unfolding commit_with_retry
commit_with_retry-none commit message c i p q accepted h =
    loop_commits commit message i accepted (pos_part c.commit_retries) 1 none c p (omega arith) h
