-- ===== src/Server/Grpc.antt =====
-- internal/server/grpc.go, internal/server/interceptors.go, and NewSearchTrendsHandler of
-- internal/server/search_trends.go. The gRPC library is outside the model: a server is its address,
-- whether it has the interceptor, and what was registered with it, in order.
use wb_test_task.Base.{
  Bool, true, false, not, Option, none, some, List, [], ◌∷◌, ◌++◌, if◌then◌else◌,
}
use wb_test_task.Base.Text.{Text, codes}
use wb_test_task.Runtime.{Error, Duration}
use wb_test_task.Normalizer.{is_empty}
use wb_test_task.Aggregator.Types.{InMemoryAggregator}
use wb_test_task.Stoplist.{Manager}
use wb_test_task.Server.{StopListCall, SearchTrendsHandler}
use wb_test_task.Metrics.{Sample, observe_grpc_request}

pub data ServerProblem : Type 0 where
  grpc_address_required top_provider_required stop_words_required logger_required : ServerProblem
  handler_refused : ServerProblem → ServerProblem

pub data Made {ℓ} (A : Type ℓ) : Type ℓ where
  made : A → Made A
  not_made : ServerProblem → Made A

abbrev pub is_made {ℓ} : {A : Type ℓ} → Made A → Bool
is_made (made a) = true
is_made (not_made problem) = false

-- GRPCDependencies, with `none` for nil
pub record GrpcDependencies : Type 0 where
  pub top_provider : Option InMemoryAggregator
  pub stop_words : Option Manager
  pub metrics : Option (List StopListCall)

pub data Service : Type 0 where
  health_service : Text → Text → Service
  search_trends_service : InMemoryAggregator → SearchTrendsHandler → Service
  reflection_service : Service

pub record GrpcServer : Type 0 where
  pub address : Text
  pub has_interceptor : Bool
  pub services : List Service

-- NewSearchTrendsHandler: the handler, with the provider of the top
unfoldable pub new_search_trends_handler :
    Option InMemoryAggregator
    → Option Manager
    → Option (List StopListCall)
    → Bool
    → Made (InMemoryAggregator × SearchTrendsHandler)
new_search_trends_handler none words metrics has_logger = not_made top_provider_required
new_search_trends_handler (some top) none metrics has_logger = not_made stop_words_required
new_search_trends_handler (some top) (some words) metrics false = not_made logger_required
new_search_trends_handler (some top) (some words) metrics true =
    made (top, record { stop_words = words; metrics = metrics })

abbrev pub is_given {ℓ} : {A : Type ℓ} → Option A → Bool
is_given none = false
is_given (some a) = true

-- the registrations of NewGRPCServer, with the handler
abbrev pub with_handler :
    Text → Bool → Made (InMemoryAggregator × SearchTrendsHandler) → Made GrpcServer
with_handler address intercepts (not_made problem) = not_made (handler_refused problem)
with_handler address intercepts (made (top, handler)) = made (record {
  address = address;
  has_interceptor = intercepts;
  services =
      health_service [] (codes "SERVING")
      ∷ search_trends_service top handler
      ∷ reflection_service
      ∷ [];
})

-- NewGRPCServer
unfoldable pub new_grpc_server : Text → GrpcDependencies → Bool → Made GrpcServer
unfolding new_search_trends_handler
new_grpc_server address deps has_logger =
    if is_empty address
    then not_made grpc_address_required
    else if not (is_given deps.top_provider)
    then not_made top_provider_required
    else if not (is_given deps.stop_words)
    then not_made stop_words_required
    else if not has_logger
    then not_made logger_required
    else with_handler address (is_given deps.metrics)
        (new_search_trends_handler deps.top_provider deps.stop_words deps.metrics has_logger)

-- What Serve returns with.
pub data Served : Type 0 where
  served_without_error server_stopped : Served
  serve_failed : Error → Served

-- GRPCServer.Run, with what net.Listen and Serve answer
unfoldable pub grpc_run : Option Error → Served → Option Error
grpc_run (some e) served = some e
grpc_run none served_without_error = none
grpc_run none server_stopped = none
grpc_run none (serve_failed e) = some e

module _ {Req Resp S : Type 0} (code_of : Resp → Text) (handler : Req → S → S × Resp) where
  -- A request as the interceptor sees it: the full method, how long the handler takes, the message.
  pub record Request : Type 0 where
    pub full_method : Text
    pub took : Duration
    pub message : Req

  -- unaryMetricsInterceptor
  unfoldable pub unary_metrics_interceptor : Request → S × List Sample → (S × List Sample) × Resp
  unfolding observe_grpc_request
  unary_metrics_interceptor r (s, samples) =
      let (s', resp) = handler r.message s in
      ((s', observe_grpc_request r.full_method (code_of resp) r.took ++ samples), resp)
