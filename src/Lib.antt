-- ===== src/Lib.antt =====
-- The internal developer platform: an HTTP API that accepts requests to create an application
-- with its cloud resources and puts them on a queue, and a provisioner that takes them off the
-- queue and splits them into work. The API lives under services/api/internal, the provisioner
-- under services/provisioner/internal. A request runs through the middleware of the router, then
-- through the idempotency middleware, which answers a retry from a store in Redis, then through a
-- handler, which decodes and validates its body and calls a service, and at last to a publisher
-- for Kafka or SQS. A consumer of the provisioner receives the message, parses it, splits it into
-- scaffold and infrastructure work, and deletes or commits it.
--
-- Which file models which part:
-- - Common, Text: lists, results and association lists; Go's texts with the functions of packages
--   strings, unicode and regexp that the program calls. Text/Regex decides a regular expression
--   by derivatives, against the relation `Matches`.
-- - Logging, Logging/Logger, Provisioner/Logger: internal/logger/logger.go of both services, the
--   same text twice.
-- - Domain/ValueObjects, Domain/Errors, Domain/Model: domain/valueobjects/valueobjects.go (NewEmail
--   is `new_email`, and so on), domain/errors/errors.go, domain/model/resource.go and auth.go.
-- - Config: config/config.go (NewConfig is `new_config`).
-- - Http/Writer: what handlers see of net/http. A `Writer` is the server's writer under a stack of
--   recorders: statusRecorder of metrics_middleware.go and responseRecorder of
--   idempotency_middleware.go. A `Handler` changes a `World`: its request, its writer, the state
--   behind the ports, the log and the time; it returns or panics.
-- - Http/Response, Http/Validation, Http/Handlers, Http/Middleware, Http/Idempotency:
--   adapters/inbound/http, with one function per handler, middleware or helper of the code
--   (IdempotencyMiddleware is `idempotency_middleware`, replayCachedResponse is
--   `replay_cached_response`, Provision is `provision`).
-- - Http/Idempotency/Interleaving: the same middleware over the Redis store with requests that run
--   at the same time on one key, one command of Redis a step; `Move` is a step of one request, `Reach`
--   any interleaving.
-- - Http/Pages: health_handler.go and swagger_handler.go.
-- - Http/Metrics, Http/Router: metrics_middleware.go and router.go (NewRouterWithConfig is
--   `new_router_with_config`).
-- - Api: the resource handler behind the idempotency middleware over the Redis store, behind the
--   router, as bootstrap/application.go puts them together, with what each part acts on (Api/Apart).
-- - Idempotency/Store: the port domain/ports/outbound/idempotency_store.go with its contract
--   `IsLawful`. Idempotency/RedisStore: adapters/outbound/idempotency/redis_store.go over a Redis
--   client with the documented laws of its commands (Idempotency/RedisStore/Server); a server in
--   memory that has those laws stands in Idempotency/RedisStore/Memory.
-- - Publish, Publish/Carriers: application/service/resource_service.go, the two publishers under
--   adapters/outbound, and the carriers of their trace context.
-- - Cognito: adapters/outbound/cognito/auth_provider.go.
-- - Provisioner/Request, Provisioner/Dispatch, Provisioner/Sqs, Provisioner/Kafka:
--   provision/request.go and consumer/dispatch.go, sqs.go, kafka.go. A consumer's state holds the
--   client's, the log with the spans, and the three counters of metrics.go.
-- - Provisioner/Propagation: consumer/propagation.go.
-- - Provisioner/Start: services/provisioner/cmd/consumer/main.go and internal/telemetry/telemetry.go.
-- - Contract: the validation tags of the API's requests against the provisioner's Parse.
-- - Bootstrap: bootstrap/application.go, server/server.go, infrastructure, telemetry, and
--   services/api/cmd/server/main.go. A process keeps what it asked of the libraries, so that what is
--   open can be read off (Bootstrap/Release).
--
-- Arguments of the model are the Redis, SQS, Kafka and Cognito clients, uuid.Parse and uuid.New,
-- SHA-256, the JSON codecs, the validator library, the context and the clock, the Unicode case
-- tables beyond ASCII, http.ServeMux with the patterns at which it panics, the OpenTelemetry
-- instruments and providers, and the
-- AWS SDK. A text that the program walks is a list of code points, so it is valid UTF-8, and
-- `byte_len` is its length in bytes; header names are in canonical form. A JSON body that the
-- program writes is kept as the value that was encoded. In the Redis store no key expires between
-- two commands of one operation; in an interleaving it may expire while no request holds it. A
-- command that failed may have been executed or not.
--
-- The two consumer loops run on fuel, one unit for each round: more rounds than the context
-- allows until it is cancelled are enough.
--
-- Not modelled: the pages of http-swagger; the span events of the publishers and the context that
-- spans and log entries carry; where logrus writes an entry, and which levels it drops; the
-- options of the telemetry's providers but for the view of the metrics, and the handler that
-- serves them; test doubles. The scaffolder, which is written in another
-- language, and the infrastructure code stand beside the development.
pub mod Common
pub mod Text
pub mod Domain
pub mod Config
pub mod Logging
pub mod Idempotency
pub mod Http
pub mod Publish
pub mod Cognito
pub mod Provisioner
pub mod Api
pub mod Bootstrap
pub mod Contract
