-- ===== src/Lib.antt =====
-- Verification of alertsd: the rules, the evaluation engine, the repository in memory, the service, definition
-- files, the adapter of events, the broker, the configuration and the API.
--
-- alertsd evaluates alert rules on frames of market candles. A definition names a series, a rule, a mode of
-- evaluation and a trigger policy; a frame (an observation) is a candle of a series, confirmed or provisional,
-- with indicators, zones and patterns. The engine routes a frame to the definitions of its series, evaluates
-- their rules with the history of the series, decides what triggers, and commits alerts and states to the
-- repository in one batch. The service checks what comes in, and drains the alerts to a publisher.
--
-- Common holds the shared helpers: Boolean tests and the equality instance (Common/Tests), lists (Common/Lists),
-- Go's int and time.Duration with the 64-bit wrap-around (Common/Int), texts and bytes (Common/Text), and maps as
-- association lists (Common/Dict). An Option is a computation that may panic, a Result one that returns an error.
--
-- Model is internal/model/model.go. A float64 is a value of a type F with the operations of the record Float64,
-- an instant is the number of nanoseconds since Go's zero time, and the packages crypto/sha256, encoding/json and
-- time are the record Platform. Both records are parameters, of which nothing is assumed.
--
-- Rules is internal/rules/evaluator.go: the walks over a rule (Rules/Kinds), validate (Rules/Validate), the cases
-- of evaluate (Rules/Results, Rules/Facts, Rules/Temporal, Rules/Timeframe), evaluate and Compile (Rules/Evaluate)
-- and Advance (Rules/Advance). The recursion is structural on the rule.
--
-- Store is internal/store/store.go, the interface of a repository as a record of operations over its state;
-- Store/Apply is internal/store/evaluate.go, and Store/Memory is internal/store/memory.go, with ApplyObservation
-- (Store/Memory/Observe), the alerts (Store/Memory/Outbox) and the leases (Store/Memory/Leases).
--
-- Engine is internal/runtime/engine.go: its state (Engine/State), partitions and keys (Engine/Partitions), routes
-- (Engine/Routes), the rules of order and trigger (Engine/Policy), the two branches of the loop of EvaluateBatch
-- (Engine/Batch, Engine/Reset), the whole call and Initialize (Engine/Run). The engine takes the repository as a
-- parameter. The maps that a call fills before it commits are the record Batch. The loops are structural recursion
-- on the observations, the definitions and the history; the one fuel, in the decimal digits of a number
-- (Common/Text), is the number plus one, more than it has digits.
--
-- Service is internal/service/service.go: definitions and ingestion (Service), validateObservation
-- (Service/Observations) and the inner loop of the publisher (Service/Publishing), with fuel for its passes: a loop
-- that has used it up has no result, and one more pass than there are hundreds of pending alerts is enough. A call
-- takes its readings of the clock as arguments; the canonical JSON under a definition's hash is a parameter.
--
-- Engine/Spec is an abstract reading of EvaluateBatch without resets: frames one after another, on states read as
-- functions of their keys, with no maps of a batch and no commit. Engine/Run/Refinement relates the two, and
-- Engine/Run/Replay is about a batch that is delivered twice.
--
-- DefinitionFile is internal/definitionfile/definitionfile.go: manifests and their checks, New with its stable sort,
-- and Import over a transport, which is a parameter as encoding/json is; Decode, Encode and Export are in
-- DefinitionFile/Files. DefinitionFile/Export is about what an export brings back when it is imported.
--
-- Signals is internal/signals/adapter.go. The decoding of an output's JSON is the record Json.
--
-- Broker is internal/broker/jetstream.go: messages and their settlement (Broker), options, streams and shards
-- (Broker/Streams). The server and the sink are seen through a log of the calls to them; the answer to a call is a
-- function of the log up to it, so that nothing is assumed of them.
--
-- Config is internal/config/config.go. The environment and time.ParseDuration are the record System.
--
-- Api is internal/api/server.go: the tokens and the handlers over the service. A request is its route with what its
-- body decodes to, a response is its status with the kind of its body.
--
-- Not modelled: the locks (a call is one step), PostgreSQL (SQL), the commands; of the API the multiplexer, JSON, the
-- texts of problems, readiness, the metrics page and the contents of the catalog; of the broker the
-- connections, goroutines, fetch loop and subscriptions; of the service the tickers, maintenance, readiness and
-- logging. Go does not fix the order in which a map is iterated; here it is the order of the association list.
--
-- Tests holds a concrete instance of the parameters, and each theorem at a concrete input.
pub mod Common
pub mod Model
pub mod Rules
pub mod Store
pub mod Engine
pub mod Service
pub mod DefinitionFile
pub mod Signals
pub mod Broker
pub mod Config
pub mod Api
pub mod Tests
