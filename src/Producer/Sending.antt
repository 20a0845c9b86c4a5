-- ===== src/Producer/Sending.antt =====
-- The loop of the producer: how many events it has sent when it ends, and that it sends all of them
-- when nothing fails.
use wb_test_task.Base.{
  ℕ, zero, suc, ◌+◌, ◌≤◌, ◌≡◌, ◌≢◌, refl, ap, Option, none, some, List, ◌++◌, length, ltb, ◌&&◌,
  ◌-◌, arith, inl, inr, ◌⊎◌, Bool-cases,
}
use wb_test_task.Base.Int.{pos, pos_part, ltb_ℤ}
use wb_test_task.Base.Text.{Text, codes}
use wb_test_task.Runtime.{Context, Error, Result, ok, err}
use wb_test_task.Unicode.Format.{hex_encode}
use wb_test_task.Producer.{
  Rand, ProducedEvent, Flags, check_flags, generate_event_input, new_event_id,
}
use wb_test_task.Producer.Loop.{
  Moment, LoopOutcome, goes_on, interrupted, failed, finished, produced_event, Sender, send_event,
  send_round, send_loop, start, run, write_event, after_write, producer_result, producer_result,
}

-- The outside answers with no error.
abbrev pub IsSmooth : Moment → Type 0
IsSmooth m =
    ((bytes : List ℕ) × (m.random_bytes ≡ ok bytes)) × (m.written ≡ none) × (m.pause ≡ none)

module _ (rand : Rand) (marshal : ProducedEvent → Result Text) where
  -- What a round or the loop has added: as many messages as events sent, no more than the rounds, and
  -- as many as these if the loop goes on.
  abbrev pub Added : ℕ → Sender rand marshal → Sender rand marshal × LoopOutcome → Type 0
  Added rounds s (s', outcome) =
      (length s'.written + s.sent ≡ length s.written + s'.sent)
      × (s.sent ≤ s'.sent)
      × (s'.sent ≤ s.sent + rounds)
      × ((outcome ≢ goes_on) ⊎ (s'.sent ≡ s.sent + rounds))

  module _ (flags : Flags rand) where
    interrupted_not : ◌≢◌ {A = LoopOutcome} interrupted goes_on
    interrupted_not e = cc

    failed_not : (x : Error) → ◌≢◌ {A = LoopOutcome} (failed x) goes_on
    failed_not x e = cc

    no_message : (s : Sender rand marshal) (x : Error) → Added 1 s (s, failed x)
    no_message s x = (omega arith, omega arith, omega arith, inl (failed_not x))

    after_write-Added :
        (i : ℕ) (pause : Context) (s s' : Sender rand marshal)
        → length s'.written ≡ length s.written + 1
        → s'.sent ≡ s.sent + 1
        → Added 1 s (after_write rand marshal flags i pause s')
    after_write-Added i none s s' p q = (omega arith, omega arith, omega arith, inr q)
    after_write-Added i (some stop) s s' p q =
        elim (Bool-cases (ltb_ℤ (pos 0) flags.interval && ltb i (pos_part flags.count - 1))) [
          | inl e ↦ rw e (omega arith, omega arith, omega arith, inl interrupted_not)
          | inr e ↦ rw e (omega arith, omega arith, omega arith, inr q)
        ]

    write_event-Added :
        (i : ℕ) (m : Moment) (o : Option Error) (key : Text) (r : Result Text)
        (s s' : Sender rand marshal)
        → m.written ≡ o
        → s'.sent ≡ s.sent
        → s'.written ≡ s.written
        → Added 1 s (write_event rand marshal flags i m key r s')
    write_event-Added i m o key (err x) s s' e p q = rw (p, q) (no_message s x)
    write_event-Added i m none key (ok payload) s s' e p q =
        rw e (after_write-Added i m.pause s _ (omega (arith, ap length q)) (omega (arith, p)))
    write_event-Added i m (some x) key (ok payload) s s' e p q =
        rw e (omega (arith, ap length q), omega (arith, p), omega (arith, p), inl (failed_not x))

    send_event-Added :
        (i : ℕ) (m : Moment) (r : Result Text) (s : Sender rand marshal)
        → Added 1 s (send_event rand marshal flags i m r s)
    send_event-Added i m (err x) s = no_message s x
    send_event-Added i m (ok event_id) s =
        let (generated, rng') = generate_event_input rand flags s.rng in
        let event = produced_event event_id generated m.now in
        write_event-Added i m m.written event.user_id (marshal event) s (record s { rng = rng' })
          refl refl refl

    abbrev continue :
        (ℕ → Moment) → ℕ → ℕ → Sender rand marshal × LoopOutcome → Sender rand marshal × LoopOutcome
    continue moments left i (s, goes_on) = send_loop rand marshal flags moments left (i + 1) s
    continue moments left i (s, interrupted) = (s, interrupted)
    continue moments left i (s, failed e) = (s, failed e)

    send_loop-suc :
        (moments : ℕ → Moment) (left i : ℕ) (s : Sender rand marshal)
        → send_loop rand marshal flags moments (suc left) i s
          ≡ continue moments left i (
              send_event rand marshal flags i (moments i) (new_event_id (moments i).random_bytes) s)
    unfolding send_loop send_round
    send_loop-suc moments left i s = refl

    Added-trans :
        (left : ℕ) (s t : Sender rand marshal) (r : Sender rand marshal × LoopOutcome)
        → Added 1 s (t, goes_on)
        → Added left t r
        → Added (suc left) s r
    Added-trans left s t (u, o) (a, b, c, inl d) (e, f, g, k) = absurd (d refl)
    Added-trans left s t (u, o) (a, b, c, inr d) (e, f, g, inl k) =
        (omega arith, omega arith, omega arith, inl k)
    Added-trans left s t (u, o) (a, b, c, inr d) (e, f, g, inr k) =
        (omega arith, omega arith, omega arith, inr (omega arith))

    continue-Added :
        (moments : ℕ → Moment) (left i : ℕ) (s : Sender rand marshal)
        (r : Sender rand marshal × LoopOutcome)
        → ((t : Sender rand marshal)
            → Added left t (send_loop rand marshal flags moments left (i + 1) t))
        → Added 1 s r
        → Added (suc left) s (continue moments left i r)
    continue-Added moments left i s (t, goes_on) later v =
        Added-trans left s t (send_loop rand marshal flags moments left (i + 1) t) v (later t)
    continue-Added moments left i s (t, interrupted) later (a, b, c, d) =
        (a, b, omega arith, inl interrupted_not)
    continue-Added moments left i s (t, failed e) later (a, b, c, d) =
        (a, b, omega arith, inl (failed_not e))

    -- However the loop of the producer ends, it has written as many messages as it counts as sent, and
    -- no more than it had rounds; and exactly as many as these if it ends after its last round.
    pub send_loop-Added :
        (moments : ℕ → Moment) (left i : ℕ) (s : Sender rand marshal)
        → Added left s (send_loop rand marshal flags moments left i s)
    unfolding send_loop
    send_loop-Added moments zero i s = (refl, omega arith, omega arith, inr (omega arith))
    send_loop-Added moments (suc left) i s = rw (send_loop-suc moments left i s) (
        continue-Added moments left i s
          (send_event rand marshal flags i (moments i) (new_event_id (moments i).random_bytes) s)
          (send_loop-Added moments left (i + 1))
          (send_event-Added i (moments i) (new_event_id (moments i).random_bytes) s))

    send_event-goes_on :
        (i : ℕ) (m : Moment) (event_id : Text) (s : Sender rand marshal)
        → ((e : ProducedEvent) → (payload : Text) × (marshal e ≡ ok payload))
        → m.written ≡ none
        → m.pause ≡ none
        → (send_event rand marshal flags i m (ok event_id) s).1 ≡ goes_on
    send_event-goes_on i m event_id s total w p =
        let (payload, e) =
          total (produced_event event_id (generate_event_input rand flags s.rng).0 m.now) in
        rw (e, w, p) refl

    round-goes_on :
        (i : ℕ) (m : Moment) (s : Sender rand marshal)
        → ((e : ProducedEvent) → (payload : Text) × (marshal e ≡ ok payload))
        → IsSmooth m
        → (send_event rand marshal flags i m (new_event_id m.random_bytes) s).1 ≡ goes_on
    unfolding new_event_id
    round-goes_on i m s total ((bytes, b), w, p) =
        rw b (send_event-goes_on i m (codes "evt_" ++ hex_encode bytes) s total w p)

    continue-goes_on :
        (moments : ℕ → Moment) (left i : ℕ) (r : Sender rand marshal × LoopOutcome)
        → r.1 ≡ goes_on
        → ((t : Sender rand marshal)
            → (send_loop rand marshal flags moments left (i + 1) t).1 ≡ goes_on)
        → (continue moments left i r).1 ≡ goes_on
    continue-goes_on moments left i (s, goes_on) e later = later s
    continue-goes_on moments left i (s, interrupted) e later = e
    continue-goes_on moments left i (s, failed x) e later = e

    send_loop-goes_on :
        (moments : ℕ → Moment) (left i : ℕ) (s : Sender rand marshal)
        → ((e : ProducedEvent) → (payload : Text) × (marshal e ≡ ok payload))
        → ((j : ℕ) → IsSmooth (moments j))
        → (send_loop rand marshal flags moments left i s).1 ≡ goes_on
    unfolding send_loop
    send_loop-goes_on moments zero i s total smooth = refl
    send_loop-goes_on moments (suc left) i s total smooth = rw (send_loop-suc moments left i s) (
        continue-goes_on moments left i
          (send_event rand marshal flags i (moments i) (new_event_id (moments i).random_bytes) s)
          (round-goes_on i (moments i) s total (smooth i))
          (λ t. send_loop-goes_on moments left (i + 1) t total smooth))

    finishes :
        (n : ℕ) (r : Sender rand marshal × LoopOutcome)
        → r.1 ≡ goes_on
        → Added n (start rand marshal r.0.rng) r
        → r.0.sent ≡ n
    finishes n (s, o) e (a, b, c, inl d) = absurd (d e)
    finishes n (s, o) e (a, b, c, inr d) = omega (arith, d)

    finished_result :
        (n : ℕ) (r : Sender rand marshal × LoopOutcome)
        → r.1 ≡ goes_on
        → r.0.sent ≡ n
        → producer_result rand marshal r ≡ finished n
    finished_result n (s, goes_on) e p = ap finished p
    finished_result n (s, interrupted) e p = cc
    finished_result n (s, failed x) e p = cc

    -- A producer whose flags pass its checks, to which json.Marshal, crypto/rand and the Kafka writer
    -- answer with no error and whose context is not done, ends with `count` events sent.
    pub run-finishes :
        (moments : ℕ → Moment) (rng : rand.Rng)
        → check_flags rand flags ≡ none
        → ((e : ProducedEvent) → (payload : Text) × (marshal e ≡ ok payload))
        → ((j : ℕ) → IsSmooth (moments j))
        → run rand marshal flags moments rng ≡ finished (pos_part flags.count)
    unfolding run
    run-finishes moments rng checked total smooth =
        let n = pos_part flags.count in
        let r = send_loop rand marshal flags moments n 0 (start rand marshal rng) in
        let on = send_loop-goes_on moments n 0 (start rand marshal rng) total smooth in
        rw (run, checked)
          (finished_result n r on
            (finishes n r on (send_loop-Added moments n 0 (start rand marshal rng))))
