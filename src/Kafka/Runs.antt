-- ===== src/Kafka/Runs.antt =====
-- Run of the Consumer: the messages committed by a run of its loop.
use wb_test_task.Base.{
  ◌≢◌, ◌⊎◌, inl, inr, ℕ, suc, ◌≤◌, ◌<◌, ◌≡◌, refl, sym, ap, ◌∙◌, List, [], ◌∷◌, take, length, arith,
}
use wb_test_task.Base.Int.{pos_part}
use wb_test_task.Runtime.{Error}
use wb_test_task.Kafka.{Message}
use wb_test_task.Kafka.Consumer.{
  Consumer, Round, fetch_failed, fetched, Outcome, stopped, commit_failed, goes_on, run_round, run,
}
use wb_test_task.Kafka.Commits.{done_messages}
use wb_test_task.Kafka.Rounds.{done_first, Advanced, round_advances}

-- The consumer has got through the first `done` rounds, and through all if it goes on.
record Through (rounds : List Round) (c d : Consumer) (outcome : Outcome) : Type 0 where
  done : ℕ
  among : done ≤ length rounds
  commits : d.committed ≡ done_messages (take done rounds) c.committed
  whole : (outcome ≢ goes_on) ⊎ (done ≡ length rounds)

done_messages-cons :
    (r : Round) (rounds : List Round) (before : List Message)
    → done_messages (r ∷ rounds) before ≡ done_messages rounds (done_first r before)
unfolding done_messages
done_messages-cons (fetch_failed e pause) rounds before = refl
done_messages-cons (fetched message a) rounds before = refl

done_messages-nil : (before : List Message) → done_messages [] before ≡ before
unfolding done_messages
done_messages-nil before = refl

unreached :
    (rounds : List Round) (c d : Consumer) (outcome : Outcome)
    → d.committed ≡ c.committed
    → ¬ (outcome ≡ goes_on)
    → Through rounds c d outcome
unreached rounds c d outcome p n = record {
  done = 0;
  among = omega arith;
  commits = p ∙ sym (done_messages-nil c.committed);
  whole = inl n;
}

later :
    {outcome : Outcome} {m n : ℕ}
    → (outcome ≢ goes_on) ⊎ (m ≡ n)
    → (outcome ≢ goes_on) ⊎ (suc m ≡ suc n)
later (inl stop) = inl stop
later (inr e) = inr (ap suc e)

advanced :
    (r : Round) (rounds : List Round) (c d e : Consumer) (outcome : Outcome)
    → d.committed ≡ done_first r c.committed
    → Through rounds d e outcome
    → Through (r ∷ rounds) c e outcome
advanced r rounds c d e outcome p t = record {
  done = suc t.done;
  among = omega (arith, t.among);
  commits =
      t.commits
      ∙ ap (done_messages (take t.done rounds)) p
      ∙ sym (done_messages-cons r (take t.done rounds) c.committed);
  whole = later t.whole;
}

stopped_not : ¬ (stopped ≡ goes_on)
stopped_not e = cc

failed_not : (x : Error) → ¬ (commit_failed x ≡ goes_on)
failed_not x e = cc

abbrev continue : List Round → Consumer × Outcome → Consumer × Outcome
continue rounds (d, stopped) = (d, stopped)
continue rounds (d, commit_failed e) = (d, commit_failed e)
continue rounds (d, goes_on) = run rounds d

continue-Through :
    (r : Round) (rounds : List Round) (c : Consumer) (s : Consumer × Outcome)
    → 0 < pos_part c.commit_retries
    → ((d : Consumer)
        → 0 < pos_part d.commit_retries
        → Through rounds d (run rounds d).0 (run rounds d).1)
    → Advanced r c s
    → Through (r ∷ rounds) c (continue rounds s).0 (continue rounds s).1
continue-Through r rounds c (d, stopped) p later v =
    unreached (r ∷ rounds) c d stopped v stopped_not
continue-Through r rounds c (d, commit_failed e) p later v =
    unreached (r ∷ rounds) c d (commit_failed e) v (failed_not e)
continue-Through r rounds c (d, goes_on) p later (v, w) =
    advanced r rounds c d _ _ v (later d (rw w p))

run-cons :
    (r : Round) (rounds : List Round) (c : Consumer)
    → run (r ∷ rounds) c ≡ continue rounds (run_round r c)
unfolding run
run-cons r rounds c = refl

run-Through :
    (rounds : List Round) (c : Consumer)
    → 0 < pos_part c.commit_retries
    → Through rounds c (run rounds c).0 (run rounds c).1
unfolding run
run-Through [] c p = record {
  done = 0;
  among = omega arith;
  commits = sym (done_messages-nil c.committed);
  whole = inr refl;
}
run-Through (r ∷ rounds) c p =
    rw (run-cons r rounds c)
      (continue-Through r rounds c (run_round r c) p (run-Through rounds) (round_advances r c p))

-- With a positive number of commit retries, the messages that Run has committed are those of the first
-- `done` rounds that are invalid or processed, each once and in the order of the rounds; while the loop
-- goes on these are all its rounds, so that only a message that failed is passed over.
pub run-committed :
    (rounds : List Round) (c : Consumer)
    → 0 < pos_part c.commit_retries
    → (done : ℕ) × (done ≤ length rounds)
      × ((run rounds c).0.committed ≡ done_messages (take done rounds) c.committed)
      × (((run rounds c).1 ≢ goes_on) ⊎ (done ≡ length rounds))
run-committed rounds c p = let t = run-Through rounds c p in (t.done, t.among, t.commits, t.whole)
