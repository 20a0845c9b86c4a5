-- ===== src/App/Running/Failures.antt =====
-- Each step keeps that the group's error is one that a goroutine has returned.
use wb_test_task.Base.{◌≡◌, ◌≢◌, refl, ap, ◌∙◌, Option, none, some, [], ◌∷◌, inl, inr, ◌⊎◌}
use wb_test_task.Runtime.{Error}
use wb_test_task.Aggregator.Types.{InMemoryAggregator}
use wb_test_task.Aggregator.{RunState, returned, waiting, run}
use wb_test_task.Aggregator.Loop.{run-perform_all}
use wb_test_task.Kafka.Consumer.{Consumer, Outcome, stopped, commit_failed, goes_on, run_round}
use wb_test_task.App.{App}
use wb_test_task.App.Running.{
  Outside, running, ended, GrpcThread, grpc_serving, grpc_stopping, grpc_ended, metrics_serving,
  metrics_stopping, metrics_ended, Fetch, no_message, got, Action, signal, wake, consume, call,
  grpc_listen, grpc_stop, grpc_return, metrics_stop, metrics_return, System, receive, woken,
  consumed, act, IsEnabled,
}

module _ (out : Outside) where
  open out use {unicode, errgroup}
  open errgroup use {
    Group, finish, failure, failure-finish_nil, failure-finish_first, failure-finish_later,
    failure-with_context, with_context, is_canceled, is_canceled-failure,
  }

  -- A goroutine that may return an error has returned this one.
  abbrev pub HasFailed : Error → System out → Type 0
  HasFailed e s =
      (s.consumer_thread ≡ ended (some e))
      ⊎ (s.grpc_thread ≡ grpc_ended (some e))
      ⊎ (s.metrics_thread ≡ metrics_ended (some e))

  -- The group's error is one of those, and there is none without an error of the group.
  abbrev pub Answered : Group → (Error → Type 0) → Type 0
  Answered g failed =
      ((failure g ≡ none) × ((e : Error) → ¬ failed e))
      ⊎ ((e : Error) × (failure g ≡ some e) × failed e)

  finish-Answered :
      (g : Group) (before later : Error → Type 0) (r : Option Error)
      → ((e : Error) → before e → later e)
      → ((e : Error) → later e → before e ⊎ (r ≡ some e))
      → ((e : Error) → r ≡ some e → later e)
      → Answered g before
      → Answered (finish r g) later
  finish-Answered g before later none kept new made (inl (p, n)) =
      inl (failure-finish_nil g ∙ p, λ e h. elim (new e h) [ inl k ↦ n e k | inr k ↦ cc ])
  finish-Answered g before later none kept new made (inr (e, p, h)) =
      inr (e, failure-finish_nil g ∙ p, kept e h)
  finish-Answered g before later (some x) kept new made (inl (p, n)) =
      inr (x, failure-finish_first x g p, made x refl)
  finish-Answered g before later (some x) kept new made (inr (e, p, h)) =
      inr (e, failure-finish_later x e g p, kept e h)

  abbrev pub IsAnswered : System out → Type 0
  IsAnswered s = Answered s.group (λ e. HasFailed e s)

  consumer_ends :
      (s : System out) (r : Option Error)
      → s.consumer_thread ≡ running
      → IsAnswered s
      → Answered (finish r s.group) (λ e.
        (ended r ≡ ended (some e))
        ⊎ (s.grpc_thread ≡ grpc_ended (some e))
        ⊎ (s.metrics_thread ≡ metrics_ended (some e)))
  consumer_ends s r p h =
      finish-Answered s.group (λ e. HasFailed e s) _ r
        (λ e k. elim k [ inl x ↦ cc | inr x ↦ inr x ])
        (λ e k. elim k [ inl x ↦ inr cc | inr x ↦ inl (inr x) ]) (λ e k. inl (ap ended k)) h

  grpc_ends :
      (s : System out) (r : Option Error)
      → ((x : Option Error) → s.grpc_thread ≢ grpc_ended x)
      → IsAnswered s
      → IsAnswered (record s { grpc_thread = grpc_ended r; group = finish r s.group })
  grpc_ends s r n h =
      finish-Answered s.group (λ e. HasFailed e s) _ r
        (λ e k. elim k [
          | inl x ↦ inl x
          | inr (inl x) ↦ absurd (n (some e) x)
          | inr (inr x) ↦ inr (inr x)
        ])
        (λ e k. elim k [
          | inl x ↦ inl (inl x)
          | inr (inl x) ↦ inr cc
          | inr (inr x) ↦ inl (inr (inr x))
        ])
        (λ e k. inr (inl (ap grpc_ended k))) h

  metrics_ends :
      (s : System out) (r : Option Error)
      → ((x : Option Error) → s.metrics_thread ≢ metrics_ended x)
      → IsAnswered s
      → IsAnswered (record s { metrics_thread = metrics_ended r; group = finish r s.group })
  metrics_ends s r n h =
      finish-Answered s.group (λ e. HasFailed e s) _ r
        (λ e k. elim k [
          | inl x ↦ inl x
          | inr (inl x) ↦ inr (inl x)
          | inr (inr x) ↦ absurd (n (some e) x)
        ])
        (λ e k. elim k [
          | inl x ↦ inl (inl x)
          | inr (inl x) ↦ inl (inr (inl x))
          | inr (inr x) ↦ inr cc
        ])
        (λ e k. inr (inr (ap metrics_ended k))) h

  aggregator_ends :
      (r : InMemoryAggregator × RunState) (s : System out)
      → (r.1 ≡ waiting) ⊎ (r.1 ≡ returned none)
      → IsAnswered s
      → IsAnswered (woken out r s)
  aggregator_ends (agg, waiting) s k h = h
  aggregator_ends (agg, returned none) s k h =
      finish-Answered s.group (λ e. HasFailed e s) _ none (λ e x. x) (λ e x. inl x) (λ e x. cc) h
  aggregator_ends (agg, returned (some x)) s (inl k) h = cc
  aggregator_ends (agg, returned (some x)) s (inr k) h = cc

  consumed-IsAnswered :
      (r : Consumer × Outcome) (app : App) (s : System out)
      → s.consumer_thread ≡ running
      → IsAnswered s
      → IsAnswered (consumed out r app s)
  consumed-IsAnswered (c, goes_on) app s p h = h
  consumed-IsAnswered (c, stopped) app s p h = consumer_ends s none p h
  consumed-IsAnswered (c, commit_failed e) app s p h = consumer_ends s (some e) p h

  round_enabled :
      (f : Fetch) (s : System out) → IsEnabled out (consume f) s → s.consumer_thread ≡ running
  round_enabled (no_message e pause) s enabled = enabled.0
  round_enabled (got m d) s enabled = enabled.0

  same-Answered :
      (g : Group) (before later : Error → Type 0)
      → ((e : Error) → before e → later e)
      → ((e : Error) → later e → before e)
      → Answered g before
      → Answered g later
  same-Answered g before later kept back (inl (p, n)) = inl (p, λ e h. n e (back e h))
  same-Answered g before later kept back (inr (e, p, h)) = inr (e, p, kept e h)

  grpc_moves :
      (s : System out) (g : GrpcThread)
      → ((x : Option Error) → s.grpc_thread ≢ grpc_ended x)
      → ((x : Option Error) → g ≢ grpc_ended x)
      → IsAnswered s
      → IsAnswered (record s { grpc_thread = g })
  grpc_moves s g n n' h =
      same-Answered s.group (λ e. HasFailed e s) _
        (λ e k. elim k [
          | inl x ↦ inl x
          | inr (inl x) ↦ absurd (n (some e) x)
          | inr (inr x) ↦ inr (inr x)
        ])
        (λ e k. elim k [
          | inl x ↦ inl x
          | inr (inl x) ↦ absurd (n' (some e) x)
          | inr (inr x) ↦ inr (inr x)
        ])
        h

  metrics_moves :
      (s : System out)
      → s.metrics_thread ≡ metrics_serving
      → IsAnswered s
      → IsAnswered (record s { metrics_thread = metrics_stopping })
  metrics_moves s p h =
      same-Answered s.group (λ e. HasFailed e s) _
        (λ e k. elim k [ inl x ↦ inl x | inr (inl x) ↦ inr (inl x) | inr (inr x) ↦ cc ])
        (λ e k. elim k [ inl x ↦ inl x | inr (inl x) ↦ inr (inl x) | inr (inr x) ↦ cc ]) h

  pub act-IsAnswered :
      (a : Action) (s : System out) → IsEnabled out a s → IsAnswered s → IsAnswered (act out a s)
  unfolding act
  act-IsAnswered signal s enabled h = h
  act-IsAnswered (wake w) s enabled h =
      aggregator_ends (run (w ∷ []) s.app.agg) s (run-perform_all unicode (w ∷ []) s.app.agg).1 h
  act-IsAnswered (consume f) s enabled h =
      consumed-IsAnswered (run_round (receive out f s.app).1 s.consumer) (receive out f s.app).0 s
        (round_enabled f s enabled) h
  act-IsAnswered (call ctx c) s enabled h = h
  act-IsAnswered (grpc_listen none) s enabled h =
      grpc_moves s grpc_serving (λ x e. cc) (λ x e. cc) h
  act-IsAnswered (grpc_listen (some e)) s enabled h = grpc_ends s _ (λ x k. cc) h
  act-IsAnswered grpc_stop s (enabled, _) h = grpc_moves s grpc_stopping (λ x e. cc) (λ x e. cc) h
  act-IsAnswered (grpc_return x) s (inl (enabled, _)) h = grpc_ends s _ (λ x k. cc) h
  act-IsAnswered (grpc_return x) s (inr enabled) h = grpc_ends s _ (λ x k. cc) h
  act-IsAnswered metrics_stop s (enabled, _) h = metrics_moves s enabled h
  act-IsAnswered (metrics_return x) s (inl (enabled, _)) h = metrics_ends s _ (λ x k. cc) h
  act-IsAnswered (metrics_return x) s (inr enabled) h = metrics_ends s _ (λ x k. cc) h
