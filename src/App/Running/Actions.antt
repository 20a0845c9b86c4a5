-- ===== src/App/Running/Actions.antt =====
-- Where the goroutines of run in cmd/app/main.go can be, and the steps that they can take.
use wb_test_task.Base.{ℕ, Option}
use wb_test_task.Base.Text.{Text}
use wb_test_task.Runtime.{Context, Error, Result, Time, Duration}
use wb_test_task.Unicode.{Unicode}
use wb_test_task.Aggregator.{Wakeup}
use wb_test_task.Kafka.{KafkaSearchEvent, Message}
use wb_test_task.Kafka.Decoder.{RawSearchEvent}
use wb_test_task.Kafka.Consumer.{Answers}
use wb_test_task.Server.Grpc.{Served}
use wb_test_task.Server.Exposition.{Listened}
use wb_test_task.App.Group.{ErrGroup}

-- What is not code of the repository.
pub record Outside : Type 1 where
  pub unicode : Unicode
  pub unmarshal : Text → Option RawSearchEvent
  pub parse_time : Text → Option Time
  pub errgroup : ErrGroup

-- A goroutine of the aggregator or the consumer.
pub data Worker : Type 0 where
  running : Worker
  ended : Option Error → Worker

-- GRPCServer.Run: before net.Listen, in Serve, in Serve after GracefulStop, and when it has returned.
pub data GrpcThread : Type 0 where
  grpc_starting grpc_serving grpc_stopping : GrpcThread
  grpc_ended : Option Error → GrpcThread

-- MetricsServer.Run: in ListenAndServe, there after Shutdown, and when it has returned.
pub data MetricsThread : Type 0 where
  metrics_serving metrics_stopping : MetricsThread
  metrics_ended : Option Error → MetricsThread

-- What a message meets: the contexts of the limiter and of Add, the clock, how long it takes, and the
-- answers of CommitMessages with ctx.Err() after the pauses.
pub record Delivery : Type 0 where
  pub limiter_ctx : Context
  pub add_ctx : Context
  pub now : Time
  pub elapsed : Duration
  pub commit : ℕ → Option Error × Context

abbrev pub answers_to : Delivery → Result KafkaSearchEvent → Option Error → Answers
answers_to d decoded answer = record {
  decoded = decoded;
  handled_with = answer;
  elapsed = d.elapsed;
  commit = d.commit;
}

-- What FetchMessage answers; an error with ctx.Err() after the pause.
pub data Fetch : Type 0 where
  no_message : Error → Context → Fetch
  got : Message → Delivery → Fetch

-- The requests of the service.
pub data Call : Type 0 where
  asking_top : Option ℕ → Call
  adding_word removing_word : Option Text → Call
  listing_words checking_health : Call

pub data Action : Type 0 where
  signal : Action
  wake : Wakeup → Action
  consume : Fetch → Action
  call : Context → Call → Action
  grpc_listen : Option Error → Action
  grpc_stop : Action
  grpc_return : Served → Action
  metrics_stop : Action
  metrics_return : Listened → Action
