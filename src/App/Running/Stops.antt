-- ===== src/App/Running/Stops.antt =====
-- How the goroutines stop: what they do before the context is done, and that they all return after.
use wb_test_task.Base.{
  ℕ, zero, suc, ◌+◌, ◌≤◌, ◌<◌, ◌≡◌, refl, ap, ◌∙◌, true, none, List, [], ◌∷◌, inr, arith, length,
  ℕ_discrete,
}
use wb_test_task.Runtime.{context, canceled, is_context_error}
use wb_test_task.Aggregator.{run, context_done}
use wb_test_task.Kafka.Consumer.{run_round}
use wb_test_task.Server.Grpc.{server_stopped, grpc_run}
use wb_test_task.Server.Exposition.{server_closed, metrics_run}
use wb_test_task.App.Running.{
  Outside, Worker, running, ended, GrpcThread, grpc_starting, grpc_serving, grpc_stopping,
  grpc_ended, MetricsThread, metrics_serving, metrics_stopping, metrics_ended, no_message, Action,
  wake, consume, grpc_listen, grpc_stop, grpc_return, metrics_stop, metrics_return, System,
  is_done_context, receive, act, IsEnabled, Reaches, at_once, after,
}
use wb_test_task.App.Running.Quiet.{finish_done}

abbrev pub worker_left : Worker → ℕ
worker_left running = 1
worker_left (ended r) = 0

abbrev pub grpc_left : GrpcThread → ℕ
grpc_left grpc_starting = 3
grpc_left grpc_serving = 2
grpc_left grpc_stopping = 1
grpc_left (grpc_ended r) = 0

abbrev pub metrics_left : MetricsThread → ℕ
metrics_left metrics_serving = 2
metrics_left metrics_stopping = 1
metrics_left (metrics_ended r) = 0

module _ (out : Outside) where
  open out use {errgroup}
  open errgroup use {failure, failure-finish_nil, is_canceled}

  -- What the goroutines have left before they have returned, all of them when it is zero.
  abbrev pub remaining : System out → ℕ
  remaining s =
      worker_left s.aggregator_thread
      + worker_left s.consumer_thread
      + grpc_left s.grpc_thread
      + metrics_left s.metrics_thread

  -- A step towards the end that leaves what Wait answers.
  record Nearer (s t : System out) : Type 0 where
    fewer : remaining t < remaining s
    still_done : is_done_context out t ≡ true
    same_failure : failure t.group ≡ failure s.group

  abbrev Next : System out → Type 0
  Next s = (a : Action) × IsEnabled out a s × Nearer s (act out a s)

  aggregator_next :
      (s : System out) → is_done_context out s ≡ true → s.aggregator_thread ≡ running → Next s
  unfolding act run
  aggregator_next s h e = (
    wake context_done,
    (e, h),
    record {
      fewer = rw e (omega arith);
      still_done = finish_done out s none h;
      same_failure = failure-finish_nil s.group;
    },
  )

  consumer_next :
      (s : System out) → is_done_context out s ≡ true → s.consumer_thread ≡ running → Next s
  unfolding act receive run_round is_context_error
  consumer_next s h e = (
    consume (no_message (context canceled) none),
    (e, tt),
    record {
      fewer = rw e (omega arith);
      still_done = finish_done out s none h;
      same_failure = failure-finish_nil s.group;
    },
  )

  grpc_next : (s : System out) → is_done_context out s ≡ true → 0 < grpc_left s.grpc_thread → Next s
  unfolding act grpc_run
  grpc_next s h p = by_thread s.grpc_thread refl
    where
      by_thread : (g : GrpcThread) → s.grpc_thread ≡ g → Next s
      by_thread grpc_starting e = (
        grpc_listen none,
        e,
        record { fewer = rw e (omega arith); still_done = h; same_failure = refl },
      )
      by_thread grpc_serving e = (
        grpc_stop,
        (e, h),
        record { fewer = rw e (omega arith); still_done = h; same_failure = refl },
      )
      by_thread grpc_stopping e = (
        grpc_return server_stopped,
        inr e,
        record {
          fewer = rw e (omega arith);
          still_done = finish_done out s none h;
          same_failure = failure-finish_nil s.group;
        },
      )
      by_thread (grpc_ended r) e = absurd (omega (arith, rw e at (p)))

  metrics_next :
      (s : System out) → is_done_context out s ≡ true → 0 < metrics_left s.metrics_thread → Next s
  unfolding act metrics_run
  metrics_next s h p = by_thread s.metrics_thread refl
    where
      by_thread : (g : MetricsThread) → s.metrics_thread ≡ g → Next s
      by_thread metrics_serving e = (
        metrics_stop,
        (e, h),
        record { fewer = rw e (omega arith); still_done = h; same_failure = refl },
      )
      by_thread metrics_stopping e = (
        metrics_return server_closed,
        inr e,
        record {
          fewer = rw e (omega arith);
          still_done = finish_done out s none h;
          same_failure = failure-finish_nil s.group;
        },
      )
      by_thread (metrics_ended r) e = absurd (omega (arith, rw e at (p)))

  next : (s : System out) → is_done_context out s ≡ true → 0 < remaining s → Next s
  next s h p = by_workers s.aggregator_thread s.consumer_thread refl refl
    where
      by_servers : worker_left s.aggregator_thread ≡ 0 → worker_left s.consumer_thread ≡ 0 → Next s
      by_servers v w = elim (ℕ_discrete (grpc_left s.grpc_thread) 0) [
        | yes e ↦ metrics_next s h (omega (arith, e, v, w, p))
        | no n ↦ grpc_next s h (omega (arith, n))
      ]

      by_workers : (v w : Worker) → s.aggregator_thread ≡ v → s.consumer_thread ≡ w → Next s
      by_workers running w e f = aggregator_next s h e
      by_workers (ended r) running e f = consumer_next s h f
      by_workers (ended r) (ended x) e f = by_servers (ap worker_left e) (ap worker_left f)

  shut_down :
      (n : ℕ) (s : System out)
      → is_done_context out s ≡ true
      → remaining s ≤ n
      → (actions : List Action) × (length actions ≤ n)
        × ((t : System out) × Reaches out s actions t
            × (remaining t ≡ 0)
            × (failure t.group ≡ failure s.group))
  shut_down zero s h p = ([], omega arith, (s, at_once, omega (arith, p), refl))
  shut_down (suc n) s h p = elim (ℕ_discrete (remaining s) 0) [
    | yes e ↦ ([], omega arith, (s, at_once, e, refl))
    | no m ↦
        let (a, enabled, nearer) = next s h (omega (arith, m)) in
        let (actions, few, (t, reaches, over, same)) =
          shut_down n (act out a s) nearer.still_done (omega (arith, p, nearer.fewer)) in
        (
          a ∷ actions,
          omega (arith, few),
          (t, after a enabled reaches, over, same ∙ nearer.same_failure),
        )
  ]

  remaining_le : (s : System out) → remaining s ≤ 7
  remaining_le s = few s.aggregator_thread s.consumer_thread s.grpc_thread s.metrics_thread
    where
      few :
          (v w : Worker) (g : GrpcThread) (m : MetricsThread)
          → worker_left v + worker_left w + grpc_left g + metrics_left m ≤ 7
      few v w g m = ground arith

  -- No deadlock: once groupCtx is done, by a signal or by the error of a goroutine, there are at most
  -- seven steps of the goroutines that get the program from any state to one in which all of them have
  -- returned, and Wait answers there what it would have answered before.
  pub is_done_context-Reaches :
      (s : System out)
      → is_done_context out s ≡ true
      → (actions : List Action) × (length actions ≤ 7)
        × ((t : System out) × Reaches out s actions t
            × (remaining t ≡ 0)
            × (failure t.group ≡ failure s.group))
  is_done_context-Reaches s h = shut_down 7 s h (remaining_le s)
