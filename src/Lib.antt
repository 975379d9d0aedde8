-- ===== src/Lib.antt =====
-- ultiproxy: a proxy that serves one OpenAI and Anthropic surface from many upstream providers
-- ("lanes"). This library models its control logic in Go and proves what keeps it correct.
--
-- The parts and how they interact. A client's request is decoded by one of two codecs (pkg/codec)
-- to the messages of pkg/ir, and the events that a lane answers with are encoded by the codec of
-- the client's surface. The dispatcher (pkg/server/handlers.go) asks the router
-- (pkg/server/router.go) for a lane, calls it, delivers its answer and writes telemetry rows to
-- the writer's queue (pkg/storage/writer.go). The router reads the alias catalog
-- (pkg/server/catalog.go), the switches of the model rows (pkg/server/server.go) and the registry
-- of lanes (pkg/provider/provider.go); what is known of a model is in pkg/modelmeta, and the list
-- of models (handlers.go) shows it with what the lanes have discovered. A call of a lane has the
-- options of the client's request and those that the proxy decides (pkg/provider/options.go). The
-- runtime state of the lanes is one snapshot that is replaced by compare-and-swap
-- (pkg/state/state.go). Every HTTP answer of a lane passes the quota observer
-- (pkg/quota/observer.go), which has a refusal classified (pkg/quota/classifier.go) and tells the
-- circuit breaker (pkg/quota/breaker.go); the breaker has rows of its own and copies its circuits
-- to the snapshot. The quota scheduler (pkg/quota/scheduler.go) writes there what it polls, and to
-- the store of snapshots (pkg/quota/store.go). Lanes get their tokens from the credential manager
-- (pkg/auth/manager.go), which the refresher (pkg/server/credential_refresh.go) asks for new ones
-- before they expire, and each call of a lane has the deadline of the timeout manager
-- (pkg/server/timeouts.go). The freebuff lane has one account actor per process
-- (pkg/spikes/freebuff/actor.go), and the actors of a machine share a lock file.
--
-- Which file models which part. State.Types and State.Manager: pkg/state, with its laws in
-- State.Admin, State.Circuit and, for goroutines, State.Concurrent. Quota.LimitError and
-- Quota.Breaker (its rows in Breaker.Rows): pkg/quota/breaker.go. Quota.Classifier (its headers in
-- Classifier.Timing), Quota.Observer, Quota.Store and Quota.Scheduler (its rounds of polls in
-- Scheduler.Rounds, its loop in Scheduler.Loop): the files of those names beside it.
-- Provider.Registry: the registry.
-- Provider.Sse: the scanner of pkg/provider/internal/sse. Server.Catalog, Server.Models,
-- Server.Router and Server.Timeouts: catalog.go, the model rows of server.go, router.go and
-- timeouts.go of pkg/server; Server.Refresh: credential_refresh.go there; Server.Upstream,
-- Server.Delivery, Server.Dispatch, Server.Options, Server.Metadata and Server.Listing:
-- handlers.go, its errors, its streams, its attempts, the options of a call, and the list of
-- models with the metadata of its entries. Provider.Options: pkg/provider/options.go.
-- Auth.Manager: pkg/auth. Storage.Writer: pkg/storage/writer.go. Ir and Ir.Envelope: pkg/ir.
-- Codec.OpenAi and Codec.Anthropic: openai.go and anthropic.go of pkg/codec, each with its stream
-- encoder in Stream, the decoding of requests in Request and Options and the encoding of an answer
-- in Response. Codec.Said is what a client makes of a stream, Codec.Anthropic.Protocol is the
-- protocol of Anthropic's event stream, with the kinds of its blocks, and Codec.Agree has a client
-- that follows it. Codec.OpenAi.Merged is what a chat completion keeps of an answer.
-- ModelMeta.Modalities, ModelMeta.Catalog and ModelMeta.Info: modalities.go, modelmeta.go with catalog.go, and info.go of pkg/modelmeta.
-- Freebuff.Lock, Freebuff.Session and Freebuff.Queue: the account actor. A definition has the name
-- of the function that it models, in snake case; the state of a component is a record with the
-- fields of its struct. The modules below a component hold its theorems, and the modules named
-- Examples apply them at concrete inputs.
--
-- Conventions. A text is the list of its bytes; case folding is that of ASCII. A time.Time is a
-- number of nanoseconds after the zero time, a time.Duration and an int are integers with the wrap
-- or the saturation of 64 bits written out where the code adds or subtracts. A map is an
-- association list, read at the first row of a key. A method takes what it reads of the clock and
-- returns its new state; each stands for one critical section of its mutex, except where a file says
-- that calls do not overlap: Auth.Manager writes its files outside its mutex. Errors are values.
-- float64 is a parameter (Base.Float), since nothing here can compute with it. A body of JSON is
-- its decoded value (Base.Json). The writer of a stream may fail at any write, and an encoder goes
-- on as the code does after one.
--
-- Bounds and fuel. The loop of the dispatcher has as many rounds as dispatchRequest allows itself;
-- no other definition has fuel. Counters of failures wrap at 2^63: the agreement of the breaker
-- with the state manager is stated for at most 2^63 - 1 calls.
--
-- What is not modelled. Reading and writing of JSON, YAML, HTTP and SQL: files, lanes, the
-- database and the client are parameters of the definitions that use them, and a write of a file,
-- which the code renames into place, succeeds or leaves the old file. The lanes themselves, the
-- MCP surface, the views that the HTTP handlers give of state and telemetry, the OAuth flows and
-- the configuration are left out. The jitter that AllowProbe of pkg/state computes and never uses
-- is left out, and so are log lines.
pub mod Auth
pub mod Base
pub mod Ir
pub mod ModelMeta
pub mod Freebuff
pub mod Codec
pub mod Provider
pub mod Storage
pub mod Quota
pub mod Server
pub mod State
