-- ===== src/App/Running/Quiet.antt =====
-- What the goroutines do before the context is done.
use wb_test_task.Base.{
  ◌≡◌, refl, Bool, true, false, ◌||◌, Option, none, some, List, [], ◌∷◌, inl, inr, ◌⊎◌,
}
use wb_test_task.Runtime.{Error, is_context_error}
use wb_test_task.Aggregator.Types.{InMemoryAggregator}
use wb_test_task.Aggregator.{
  RunState, returned, waiting, Wakeup, run, context_done, tick, rebuild_top,
}
use wb_test_task.Kafka.Consumer.{Consumer, Outcome, stopped, commit_failed, goes_on, run_round}
use wb_test_task.Server.Grpc.{grpc_run}
use wb_test_task.Server.Exposition.{metrics_run}
use wb_test_task.App.{App}
use wb_test_task.App.Group.{is_canceled-finish, is_canceled-finish_some}
use wb_test_task.App.Running.{
  Outside, Worker, running, ended, GrpcThread, grpc_starting, grpc_serving, MetricsThread,
  metrics_serving, Action, signal, wake, consume, call, grpc_listen, grpc_stop, grpc_return,
  metrics_stop, metrics_return, System, launch, is_done_context, receive, woken, consumed, act,
  IsEnabled, Reaches, at_once, after,
}

pub or_right : (a b : Bool) → b ≡ true → (a || b) ≡ true
or_right true b h = refl
or_right false b h = h

or_kept : (a b c : Bool) → (b ≡ true → c ≡ true) → (a || b) ≡ true → (a || c) ≡ true
or_kept true b c f h = refl
or_kept false b c f h = f h

-- Nothing has been stopped, and no goroutine but the consumer has returned.
record Undisturbed (v w : Worker) (g : GrpcThread) (m : MetricsThread) : Type 0 where
  aggregator_runs : v ≡ running
  consumer_fine : (w ≡ running) ⊎ (w ≡ ended none)
  grpc_runs : (g ≡ grpc_starting) ⊎ (g ≡ grpc_serving)
  metrics_runs : m ≡ metrics_serving

module _ (out : Outside) where
  open out use {unicode, errgroup}
  open errgroup use {
    Group, finish, failure, failure-finish_nil, failure-finish_first, failure-finish_later,
    failure-with_context, with_context, is_canceled, is_canceled-failure,
  }

  abbrev IsUndisturbed : System out → Type 0
  IsUndisturbed s = Undisturbed s.aggregator_thread s.consumer_thread s.grpc_thread s.metrics_thread

  abbrev IsQuiet : System out → Type 0
  IsQuiet s = (is_done_context out s ≡ true) ⊎ IsUndisturbed s

  pub finish_done :
      (s : System out) (r : Option Error)
      → is_done_context out s ≡ true
      → (s.signaled || is_canceled (finish r s.group)) ≡ true
  finish_done s r h =
      or_kept s.signaled (is_canceled s.group) _ (is_canceled-finish errgroup r s.group) h

  error_done :
      (s : System out) (e : Error) → (s.signaled || is_canceled (finish (some e) s.group)) ≡ true
  error_done s e = or_right s.signaled _ (is_canceled-finish_some errgroup e s.group)

  woken_done :
      (r : InMemoryAggregator × RunState) (s : System out)
      → is_done_context out s ≡ true
      → is_done_context out (woken out r s) ≡ true
  woken_done (agg, waiting) s h = h
  woken_done (agg, returned x) s h = finish_done s x h

  consumed_done :
      (r : Consumer × Outcome) (app : App) (s : System out)
      → is_done_context out s ≡ true
      → is_done_context out (consumed out r app s) ≡ true
  consumed_done (c, goes_on) app s h = h
  consumed_done (c, stopped) app s h = finish_done s none h
  consumed_done (c, commit_failed e) app s h = finish_done s (some e) h

  -- The context stays done.
  act_done :
      (a : Action) (s : System out)
      → is_done_context out s ≡ true
      → is_done_context out (act out a s) ≡ true
  unfolding act
  act_done signal s h = refl
  act_done (wake w) s h = woken_done (run (w ∷ []) s.app.agg) s h
  act_done (consume f) s h =
      consumed_done (run_round (receive out f s.app).1 s.consumer) (receive out f s.app).0 s h
  act_done (call ctx c) s h = h
  act_done (grpc_listen none) s h = h
  act_done (grpc_listen (some e)) s h = finish_done s _ h
  act_done grpc_stop s h = h
  act_done (grpc_return x) s h = finish_done s _ h
  act_done metrics_stop s h = h
  act_done (metrics_return x) s h = finish_done s _ h

  consumed-IsQuiet :
      (r : Consumer × Outcome) (app : App) (s : System out)
      → IsUndisturbed s
      → IsQuiet (consumed out r app s)
  consumed-IsQuiet (c, goes_on) app s q = inr q
  consumed-IsQuiet (c, stopped) app s q = inr (record {
    aggregator_runs = q.aggregator_runs;
    consumer_fine = inr refl;
    grpc_runs = q.grpc_runs;
    metrics_runs = q.metrics_runs;
  })
  consumed-IsQuiet (c, commit_failed e) app s q = inl (error_done s e)

  woken-IsQuiet :
      (w : Wakeup) (s : System out)
      → IsEnabled out (wake w) s
      → IsUndisturbed s
      → IsQuiet (woken out (run (w ∷ []) s.app.agg) s)
  unfolding run rebuild_top is_context_error
  woken-IsQuiet context_done s (p, h) q = inl (finish_done s none h)
  woken-IsQuiet (tick none now elapsed) s enabled q = inr q
  woken-IsQuiet (tick (some e) now elapsed) s (p, (k, h)) q = inl (finish_done s none h)

  act-IsQuiet :
      (a : Action) (s : System out) → IsEnabled out a s → IsQuiet s → IsQuiet (act out a s)
  unfolding act grpc_run metrics_run
  act-IsQuiet a s enabled (inl h) = inl (act_done a s h)
  act-IsQuiet signal s enabled (inr q) = inl refl
  act-IsQuiet (wake w) s enabled (inr q) = woken-IsQuiet w s enabled q
  act-IsQuiet (consume f) s enabled (inr q) =
      consumed-IsQuiet (run_round (receive out f s.app).1 s.consumer) (receive out f s.app).0 s q
  act-IsQuiet (call ctx c) s enabled (inr q) = inr q
  act-IsQuiet (grpc_listen none) s enabled (inr q) = inr (record {
    aggregator_runs = q.aggregator_runs;
    consumer_fine = q.consumer_fine;
    grpc_runs = inr refl;
    metrics_runs = q.metrics_runs;
  })
  act-IsQuiet (grpc_listen (some e)) s enabled (inr q) = inl (error_done s e)
  act-IsQuiet grpc_stop s enabled (inr q) = inl enabled.1
  act-IsQuiet (grpc_return x) s (inl (p, (e, k))) (inr q) = rw k (inl (error_done s e))
  act-IsQuiet (grpc_return x) s (inr p) (inr q) = elim q.grpc_runs [ inl k ↦ cc | inr k ↦ cc ]
  act-IsQuiet metrics_stop s enabled (inr q) = inl enabled.1
  act-IsQuiet (metrics_return x) s (inl (p, (e, k))) (inr q) = rw k (inl (error_done s e))
  act-IsQuiet (metrics_return x) s (inr p) (inr q) = let k = q.metrics_runs in cc

  Reaches-IsQuiet :
      (actions : List Action) (s t : System out) → Reaches out s actions t → IsQuiet s → IsQuiet t
  Reaches-IsQuiet [] s t at_once h = h
  Reaches-IsQuiet (a ∷ actions) s t (after _ enabled rest) h =
      Reaches-IsQuiet actions (act out a s) t rest (act-IsQuiet a s enabled h)

  launched-IsQuiet : (app : App) (c : Consumer) → IsQuiet (launch out app c)
  launched-IsQuiet app c = inr (record {
    aggregator_runs = refl;
    consumer_fine = inl refl;
    grpc_runs = inl refl;
    metrics_runs = refl;
  })

  -- In any interleaving, until a signal has come or a goroutine has returned an error, nothing has been
  -- stopped and no goroutine has returned but the consumer, which may have with nil.
  pub Reaches-is_done_context :
      (app : App) (c : Consumer) (actions : List Action) (t : System out)
      → Reaches out (launch out app c) actions t
      → (is_done_context out t ≡ true)
        ⊎ ((t.aggregator_thread ≡ running)
            × ((t.consumer_thread ≡ running) ⊎ (t.consumer_thread ≡ ended none))
            × ((t.grpc_thread ≡ grpc_starting) ⊎ (t.grpc_thread ≡ grpc_serving))
            × (t.metrics_thread ≡ metrics_serving))
  Reaches-is_done_context app c actions t r =
      elim (Reaches-IsQuiet actions _ t r (launched-IsQuiet app c)) [
        | inl h ↦ inl h
        | inr q ↦ inr (q.aggregator_runs, q.consumer_fine, q.grpc_runs, q.metrics_runs)
      ]
