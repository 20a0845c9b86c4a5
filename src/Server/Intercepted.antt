-- ===== src/Server/Intercepted.antt =====
-- The interceptor of the gRPC server and the constructor of the server, against the handlers alone.
use wb_test_task.Base.{
  ℕ, ◌+◌, ◌≡◌, refl, ap, Bool, true, false, not, Option, none, some, List, [], ◌∷◌, ◌&&◌,
  if◌then◌else◌, ◌++◌, arith, inl, inr, Bool-cases,
}
use wb_test_task.Base.Text.{Text, same_text}
use wb_test_task.Normalizer.{is_empty}
use wb_test_task.Metrics.{Sample, inc, grpc_requests, observe_grpc_request}
use wb_test_task.Aggregator.Types.{InMemoryAggregator}
use wb_test_task.Stoplist.{Manager}
use wb_test_task.Server.{StopListCall}
use wb_test_task.Server.Grpc.{
  GrpcDependencies, not_made, is_given, is_made, top_provider_required, stop_words_required,
  logger_required, with_handler, new_search_trends_handler, new_grpc_server, Request,
  unary_metrics_interceptor,
}

-- NewGRPCServer makes a server exactly when it has an address, both components and a logger: the
-- checks of NewSearchTrendsHandler refuse nothing that it has let through.
pub new_grpc_server-made :
    (address : Text) (deps : GrpcDependencies) (has_logger : Bool)
    → is_made (new_grpc_server address deps has_logger) ≡ (
        not (is_empty address)
        && is_given deps.top_provider
        && is_given deps.stop_words
        && has_logger)
unfolding new_grpc_server new_search_trends_handler
new_grpc_server-made address deps has_logger = elim (Bool-cases (is_empty address)) [
  | inl p ↦ rw p refl
  | inr p ↦ rw p (with_address deps.top_provider deps.stop_words deps.metrics has_logger)
]
  where
    with_address :
        (top : Option InMemoryAggregator) (words : Option Manager)
        (metrics : Option (List StopListCall)) (has_logger : Bool)
        → is_made (
            if not (is_given top)
            then not_made top_provider_required
            else if not (is_given words)
            then not_made stop_words_required
            else if not has_logger
            then not_made logger_required
            else with_handler address
                (is_given metrics)
                (new_search_trends_handler top words metrics has_logger))
          ≡ (is_given top && is_given words && has_logger)
    with_address none words metrics l = refl
    with_address (some t) none metrics l = refl
    with_address (some t) (some w) metrics false = refl
    with_address (some t) (some w) metrics true = refl

-- One for a call of this method that is answered with this code.
abbrev of_call : Text → Text → Text → Text → ℕ
of_call method code full_method answer =
    if same_text full_method method && same_text answer code then 1 else 0

abbrev of_labels : Text → Text → List Text → ℕ
of_labels method code (full_method ∷ answer ∷ []) = of_call method code full_method answer
of_labels method code _ = 0

abbrev of_sample : Text → Text → Sample → ℕ
of_sample method code (inc grpc_requests labels) = of_labels method code labels
of_sample method code _ = 0

-- How many times the samples add one to the counter of this method and code.
unfoldable pub counted : Text → Text → List Sample → ℕ
counted method code [] = 0
counted method code (sample ∷ samples) = of_sample method code sample + counted method code samples

module _ {Req Resp S : Type 0} (code_of : Resp → Text) (handler : Req → S → S × Resp) where
  -- The calls one after the other, by the handler alone.
  unfoldable pub serve : List (Request code_of handler) → S → S × List Resp
  serve [] s = (s, [])
  serve (r ∷ rs) s =
      let (t, resp) = handler r.message s in let (u, resps) = serve rs t in (u, resp ∷ resps)

  -- The calls one after the other, through the interceptor.
  unfoldable pub serve_intercepted :
      List (Request code_of handler) → S × List Sample → (S × List Sample) × List Resp
  unfolding unary_metrics_interceptor
  serve_intercepted [] s = (s, [])
  serve_intercepted (r ∷ rs) s =
      let (t, resp) = unary_metrics_interceptor code_of handler r s in
      let (u, resps) = serve_intercepted rs t in (u, resp ∷ resps)

  -- How many of the calls are of this method and are answered with this code.
  unfoldable pub answered : Text → Text → List (Request code_of handler) → List Resp → ℕ
  unfolding same_text
  answered method code [] resps = 0
  answered method code (r ∷ rs) [] = 0
  answered method code (r ∷ rs) (resp ∷ resps) =
      of_call method code r.full_method (code_of resp) + answered method code rs resps

  -- The interceptor changes no answer and no state, and adds to the counter of a method and a code
  -- the number of the calls of that method answered with that code.
  pub serve_intercepted-eq-serve :
      (rs : List (Request code_of handler)) (s : S) (samples : List Sample) (method code : Text)
      → ((serve_intercepted rs (s, samples)).0.0 ≡ (serve rs s).0)
        × ((serve_intercepted rs (s, samples)).1 ≡ (serve rs s).1)
        × (counted method code (serve_intercepted rs (s, samples)).0.1
            ≡ answered method code rs (serve rs s).1 + counted method code samples)
  unfolding serve serve_intercepted unary_metrics_interceptor counted answered
  serve_intercepted-eq-serve [] s samples method code = (refl, refl, omega arith)
  serve_intercepted-eq-serve (r ∷ rs) s samples method code =
      let (t, resp) = handler r.message s in
      let (a, b, c) =
        serve_intercepted-eq-serve rs t
          (observe_grpc_request r.full_method (code_of resp) r.took ++ samples) method code in
      (a, ap (λ l. resp ∷ l) b, omega (arith, c))
