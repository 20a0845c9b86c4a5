-- ===== src/Examples/Shutdown.antt =====
-- Interleavings in which the program stops.
use wb_test_task.Base.{◌≡◌, refl, ◌⊎◌, inl, false, ◌≤◌, true, none, some, List, [], ◌∷◌, length}
use wb_test_task.Runtime.{is_context_error, Error, context, canceled, other}
use wb_test_task.Aggregator.{context_done, run}
use wb_test_task.Kafka.Consumer.{run_round}
use wb_test_task.Server.Grpc.{grpc_run}
use wb_test_task.Server.Exposition.{listen_failed, metrics_run}
use wb_test_task.App.Running.{
  Delivery, no_message, got, Action, wake, consume, grpc_listen, metrics_return, System,
  is_done_context, exit_code, act, receive, IsEnabled, Reaches, at_once, after, running, ended,
  grpc_starting, grpc_serving, metrics_serving,
}
use wb_test_task.App.Running.Quiet.{Reaches-is_done_context}
use wb_test_task.App.Running.Stops.{remaining, is_done_context-Reaches}
use wb_test_task.App.Running.Failures.{HasFailed}
use wb_test_task.App.Running.Waits.{Reaches-failure}
use wb_test_task.App.Running.Observed.{act-HasEnded}
use wb_test_task.Base.Text.{codes}
use wb_test_task.Stoplist.{contains, normalize, new_manager}
use wb_test_task.Examples.Ascii.{ascii, lower}
use wb_test_task.Examples.Handling.{app_at_100, decoded_event, decoded_ok}
use wb_test_task.Examples.Goroutines.{outside, consumer, launched, group, delivery, first_message}

-- The port of gRPC is taken.
abbrev port_taken : List Action
port_taken = grpc_listen (some (other 98)) ∷ []

abbrev failed : System outside
failed = act outside (grpc_listen (some (other 98))) launched

Reaches-is_done_context_example :
    (is_done_context outside failed ≡ true)
    ⊎ ((failed.aggregator_thread ≡ running)
        × ((failed.consumer_thread ≡ running) ⊎ (failed.consumer_thread ≡ ended none))
        × ((failed.grpc_thread ≡ grpc_starting) ⊎ (failed.grpc_thread ≡ grpc_serving))
        × (failed.metrics_thread ≡ metrics_serving))
Reaches-is_done_context_example =
    Reaches-is_done_context outside app_at_100 consumer port_taken failed
      (after (grpc_listen (some (other 98))) refl at_once)

failed_done : is_done_context outside failed ≡ true
unfolding act grpc_run
failed_done = refl

is_done_context-Reaches_example :
    (actions : List Action) × (length actions ≤ 7)
    × ((t : System outside) × Reaches outside failed actions t
        × (remaining outside t ≡ 0)
        × (group.failure t.group ≡ group.failure failed.group))
is_done_context-Reaches_example = is_done_context-Reaches outside failed failed_done

-- Then the port of the metrics is taken too, and the aggregator and the consumer stop.
abbrev failed_twice : System outside
failed_twice = act outside (metrics_return (listen_failed (other 99))) failed

abbrev without_aggregator : System outside
without_aggregator = act outside (wake context_done) failed_twice

abbrev shut_down : System outside
shut_down = act outside (consume (no_message (context canceled) none)) without_aggregator

abbrev shutdown : List Action
shutdown =
    grpc_listen (some (other 98))
    ∷ metrics_return (listen_failed (other 99))
    ∷ wake context_done
    ∷ consume (no_message (context canceled) none)
    ∷ []

failed-IsEnabled : IsEnabled outside (metrics_return (listen_failed (other 99))) failed
unfolding act
failed-IsEnabled = inl (refl, (other 99, refl))

failed_twice-IsEnabled : IsEnabled outside (wake context_done) failed_twice
unfolding act grpc_run metrics_run
failed_twice-IsEnabled = (refl, refl)

without_aggregator-IsEnabled :
    IsEnabled outside (consume (no_message (context canceled) none)) without_aggregator
unfolding act run
without_aggregator-IsEnabled = (refl, tt)

shut_down-Reaches : Reaches outside launched shutdown shut_down
shut_down-Reaches = after (grpc_listen (some (other 98))) refl (
    after (metrics_return (listen_failed (other 99))) failed-IsEnabled (
      after (wake context_done) failed_twice-IsEnabled (
        after (consume (no_message (context canceled) none)) without_aggregator-IsEnabled at_once)))

shut_down_over : remaining outside shut_down ≡ 0
unfolding act run receive run_round grpc_run metrics_run is_context_error
shut_down_over = refl

Reaches-failure_example :
    ((group.failure shut_down.group ≡ none)
      × (exit_code outside shut_down ≡ 0)
      × (shut_down.signaled ≡ true)
      × ((e : Error) → ¬ HasFailed outside e shut_down))
    ⊎ ((e : Error) × (group.failure shut_down.group ≡ some e)
        × (exit_code outside shut_down ≡ 1)
        × HasFailed outside e shut_down)
Reaches-failure_example =
    Reaches-failure outside app_at_100 consumer shutdown shut_down shut_down-Reaches shut_down_over

first_port : group.failure shut_down.group ≡ some (other 98)
unfolding act run receive run_round grpc_run metrics_run is_context_error
first_port = refl

-- A message that was fetched before the end of the context and reaches the limiter after it.
abbrev late : Delivery
late = record delivery { limiter_ctx = some canceled }

late_word : contains ascii failed.app.stop_words (codes "Tea") ≡ false
unfolding act grpc_run contains new_manager normalize lower
late_word = refl

act-HasEnded_example :
    ((act outside (consume (got first_message late)) failed).consumer_thread ≡ ended none)
    × ((act outside (consume (got first_message late)) failed).consumer.committed
        ≡ failed.consumer.committed)
    × (group.failure (act outside (consume (got first_message late)) failed).group
        ≡ group.failure failed.group)
act-HasEnded_example =
    act-HasEnded outside (consume (got first_message late)) failed
      (decoded_event, canceled, decoded_ok, late_word, inl refl)
