-- ===== src/App/Running/Waits.antt =====
-- What Wait answers.
use wb_test_task.Base.{
  ◌≡◌, refl, ap, ◌∙◌, Bool, true, false, ◌||◌, none, some, List, [], ◌∷◌, inl, inr, ◌⊎◌, arith,
}
use wb_test_task.Runtime.{Error}
use wb_test_task.Kafka.Consumer.{Consumer}
use wb_test_task.App.{App}
use wb_test_task.Server.Grpc.{is_given}
use wb_test_task.App.Running.{
  Outside, Action, System, launch, is_done_context, exit_code, act, Reaches, at_once, after,
}
use wb_test_task.App.Running.Stops.{remaining, worker_left}
use wb_test_task.App.Running.Quiet.{Reaches-is_done_context}
use wb_test_task.App.Running.Failures.{HasFailed, IsAnswered, act-IsAnswered}

module _ (out : Outside) where
  open out use {unicode, errgroup}
  open errgroup use {
    Group, finish, failure, failure-finish_nil, failure-finish_first, failure-finish_later,
    failure-with_context, with_context, is_canceled, is_canceled-failure,
  }

  Reaches-IsAnswered :
      (actions : List Action) (s t : System out)
      → Reaches out s actions t
      → IsAnswered out s
      → IsAnswered out t
  Reaches-IsAnswered [] s t at_once h = h
  Reaches-IsAnswered (a ∷ actions) s t (after _ enabled rest) h =
      Reaches-IsAnswered actions (act out a s) t rest (act-IsAnswered out a s enabled h)

  launched-IsAnswered : (app : App) (c : Consumer) → IsAnswered out (launch out app c)
  launched-IsAnswered app c =
      inl (failure-with_context, λ e h. elim h [ inl x ↦ cc | inr (inl x) ↦ cc | inr (inr x) ↦ cc ])

  signal_came :
      (t : System out) → failure t.group ≡ none → is_done_context out t ≡ true → t.signaled ≡ true
  signal_came t p h =
      by_group t.signaled (is_canceled t.group) (is_canceled-failure t.group ∙ ap is_given p) h
    where
      by_group : (a b : Bool) → b ≡ false → (a || b) ≡ true → a ≡ true
      by_group true b x y = refl
      by_group false b x y = cc

  -- all goroutines return only after the context is done
  stopped_done :
      (app : App) (c : Consumer) (actions : List Action) (t : System out)
      → Reaches out (launch out app c) actions t
      → remaining out t ≡ 0
      → is_done_context out t ≡ true
  stopped_done app c actions t r over = elim (Reaches-is_done_context out app c actions t r) [
    | inl h ↦ h
    | inr q ↦ absurd (omega (arith, over, ap worker_left q.0))
  ]

  -- In any interleaving, when all goroutines have returned: either Wait answers nil and the program
  -- exits with 0, a signal has come, and neither the consumer nor a server has returned an error; or
  -- Wait answers with an error that the consumer, the gRPC server or the metrics server has returned,
  -- and the program exits with 1.
  pub Reaches-failure :
      (app : App) (c : Consumer) (actions : List Action) (t : System out)
      → Reaches out (launch out app c) actions t
      → remaining out t ≡ 0
      → ((failure t.group ≡ none)
          × (exit_code out t ≡ 0)
          × (t.signaled ≡ true)
          × ((e : Error) → ¬ HasFailed out e t))
        ⊎ ((e : Error) × (failure t.group ≡ some e) × (exit_code out t ≡ 1) × HasFailed out e t)
  Reaches-failure app c actions t r over =
      elim (Reaches-IsAnswered actions _ t r (launched-IsAnswered app c)) [
        | inr (e, p, x) ↦ inr (e, p, rw p refl, x)
        | inl (p, n) ↦ inl (p, rw p refl, signal_came t p (stopped_done app c actions t r over), n)
      ]
