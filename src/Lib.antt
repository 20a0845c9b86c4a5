-- ===== src/Lib.antt =====
-- A service that counts the searches of a shop in a sliding window and serves the most frequent ones.
-- Search events come from Kafka; the consumer (internal/kafka) decodes each message and gives it to the
-- handler of cmd/app/main.go, which drops the stop words (internal/stoplist), asks the limiter
-- (internal/antispam) and counts the query in the aggregator (internal/aggregator). The aggregator
-- rebuilds its list of top queries at intervals, and the gRPC handlers (internal/server) serve it and
-- edit the stop list.
--
-- The files:
--   Aggregator, Aggregator/Types, Aggregator/Buckets: internal/aggregator/aggregator.go and types.go,
--     one function for each method of InMemoryAggregator and each loop. Aggregator/Window, Exact and
--     Runs relate its state to the history of the events that were counted. Aggregator/Serving and
--     Aggregator/Fresh relate what GetTop answers to the counters, after one call of RebuildTop and
--     in any sequence of calls; Aggregator/Loop relates Run to such a sequence.
--   Aggregator/Top: buildTop, isBetter and the heap, with container/heap.
--   Normalizer: internal/aggregator/normalizer.go.
--   Stoplist: internal/stoplist/stoplist.go.
--   Kafka, Kafka/Decoder, Kafka/Reader, Kafka/New, Kafka/Consumer: internal/kafka.
--   Antispam: internal/antispam/limiter.go.
--   Settings, Settings/Load: internal/config/config.go.
--   Metrics, Metrics/Prometheus: internal/metrics/metrics.go; Metrics/Noted and Metrics/Counted join
--     its series with the calls of the consumer and of the aggregator.
--   Server: internal/server/search_trends.go; Server/Grpc: grpc.go and interceptors.go beside it;
--     Server/Exposition: metrics.go beside it.
--   App: the handler of events of cmd/app/main.go; App/Delivery joins it with the decoder. App/Start:
--     how run of cmd/app/main.go makes the components from the configuration. App/Group, App/Running:
--     the goroutines that run starts, with GRPCServer.Run and MetricsServer.Run, as steps on one state;
--     App/Running/Parts and Composed relate an interleaving to the calls of the aggregator and the
--     stop list, Delivered to the messages of Kafka, and Quiet, Stops, Observed and Waits are about the
--     shutdown.
--     App/Whole joins the start and the goroutines; App/Stopped joins the handler with the stop list,
--     and App/Tallied with the counter of events.
--   Producer, Producer/Loop: cmd/producer/main.go, which sends test events to Kafka;
--     Producer/Decoded joins it with the decoder of the service.
--   Base, TextMap, Runtime, Unicode: numbers, lists, texts, maps, errors and times that they share.
--   Examples: tests.
--
-- A method takes what ctx.Err() answers and what the clock shows, and returns the new state beside its
-- result. The locks make a method one step, so that an interleaving of goroutines is a sequence of
-- calls. Metrics are the list of the calls made; log lines are left out. Counts are int64 bit patterns
-- below 2 ^ 64 with Go's wrapping arithmetic; times are integers of nanoseconds. A text is the list of
-- its code points, which leaves out texts that are no valid UTF-8. A Go map is an association list with
-- distinct keys, in the order in which Go ranges over it. The loops of container/heap run on fuel: up
-- from an index j halves it, and j + 1 rounds are enough; down raises the index below the length, so
-- that the length and one more is enough.
--
-- Parameters: the table of unicode.ToLower, json.Unmarshal and json.Marshal, time.Parse, the random
-- sources of the producer with their float64 values, the client library of Prometheus, http.ServeMux,
-- the environment, files and YAML of the configuration, and what the Kafka client, the decoder and the
-- handler answer to the consumer, the Kafka writer to the producer, and the error group. Not modelled:
-- the parsing of flags, log lines, the time that a shutdown takes, and generated code. The steps of the
-- goroutines leave out the panic of MetricsServer.Handler for the path /healthz: MetricsServer.Run serves
-- what Server/Exposition says of the other paths.
mod Base
pub mod TextMap
pub mod Runtime
pub mod Unicode
pub mod Normalizer
pub mod Aggregator
pub mod Stoplist
pub mod Kafka
pub mod Antispam
pub mod Settings
pub mod Server
pub mod App
pub mod Producer
pub mod Metrics
mod Examples
