-- ===== src/Lib.antt =====
-- A verification library for malert, an alerting service written in Go.
--
-- Events come in through internal/ingest and go to the manager (internal/app), which runs every rule
-- against each event: the matcher selects the events of a rule, the key builder names the alert, and
-- the engine moves the alert's runtime state and returns a decision. The manager stores the
-- alert's card and its tick in internal/state and sends notifications. A periodic tick makes the
-- transitions that no event makes and compacts the engine's states.
--
-- Files and the code that they model (paths from the repository's root):
--   Base: Boolean tests, lists, texts, int64 words, times and Go maps, shared by all others.
--   Domain, Domain/Event: internal/domain (AlertCard, Notification, Decision, Event, Validate).
--   Config/Rule: the rule types of internal/config/config.go and ResolveTimeout.
--   Config/OffWindow: its notify.off windows, and proofs about them.
--   Config/Predicate: validateValuePredicate. Config/Ready: what it leaves.
--   Config/Service, Notify, Channels: the other sections of a configuration, the registry of the
--     channels and the canonical names.
--   Config/Checks, ValidateRule, ValidateNotify, ValidateConfig: validateConfig with its parts, as
--     lists of checks in the source's order, of which the first that fails gives the error.
--   Config/StateSettings: DeriveStateNATSConfig.
--   Config/Defaults: applyDefaults. Config/QueueLimits: a proof about its queue.
--   Config/Merge, Explicit, MergeNotify, MergeFiles, LoadFiles: loadFile, loadDir and mergeConfig with
--     their parts. Config/Overlay, Guards: proofs about the merge.
--   Config/ValidRule, ValidConfig: proofs about what passes the validation.
--   Permanent: internal/permanent/permanent.go.
--   Notify/Retry, Dispatcher: the dispatcher of internal/notify/notify.go. send is Send,
--     send_with_retry is sendWithRetry, new_dispatcher is NewDispatcher.
--   Notify/Http, Telegram, Mattermost, Json, Tracker: its senders, and the requests that they make;
--     Notify/Senders makes them the transports of the dispatcher.
--   Notify/Attempts, Schedule, Rejected: proofs about the dispatcher. Notify/Ids, References, Refs:
--     proofs about the references that the senders leave.
--   Ingest/Codec, Http, Nats, Subscriber: internal/ingest and the decoders of
--     internal/domain/event.go. serve_http is ServeHTTP, consume_message is the callback of
--     NewNATSSubscriber. Ingest/Validated, Accepted, Pool: proofs about them.
--   Engine/State, Active, Process, Tick, Compact, Access: internal/engine/engine.go. RuntimeState is
--     a record with the source's fields; Engine.states is an association list; each method is a
--     function from the states to the new states and the result. process_event is ProcessEvent,
--     tick_rule is TickRuleWithFiring, compact_states is CompactStates.
--   Engine/Matcher: internal/engine/matcher.go. Engine/Key: internal/engine/key_builder.go.
--   Engine/Run: histories of calls on the engine.
--   Engine/Invariant, Identity, Reachable, Lifecycle, Ticks, Window, Counting, Timing, Firing,
--     Eviction, Limit: proofs about the engine. Engine/Matching: proofs about the matcher.
--   State/Memory: internal/state/memory_store.go and RuleAlertPrefix of internal/state/store.go.
--   State/Laws, State/Prefix: proofs about the store and its search by rule.
--   State/Interface: the interface Store of internal/state/store.go.
--   State/Nats: internal/state/nats_store.go on two buckets. State/Buckets: what a bucket promises.
--     State/Conflicts, Registers: proofs about the store. State/Deletions:
--     internal/state/delete_consumer.go.
--   Queue/Job: Job and BuildJobID of internal/notifyqueue/queue.go.
--   Queue/Worker: internal/notifyqueue/nats.go, the producer and the callback of the worker:
--     process_message is the callback, publish_dlq is publishDLQ. Queue/Outcomes: proofs about it.
--   Manager: internal/app/manager.go. App holds the manager's state, the record World holds what it
--     calls outside of it, and Run is a method that may fail. Notice and Routes build notifications,
--     Cards writes the card of a transition, Delivery sends or queues, Decisions is applyDecision,
--     Closing is ResolveByTTL and the cleanup of a removed rule, Passes is processEvent, PushBatch
--     and Tick, Rules is buildRuleIndex and ApplyConfig.
--   Manager/Chain, Sendable, Writes, Resolved, Quiet, Settled, Expiry, Refs: proofs about the manager.
--   Service: internal/app/service.go, reloadConfig and what it calls; the service holds the manager,
--     and its reload runs the manager's ApplyConfig. Service/Reload, Handles: proofs about it.
--   Tests: concrete inputs, and the theorems applied to them.
--
-- Conventions. A method that holds a mutex from its first line to its return is one step. The order
-- of an association list is the order of one range over the map, so that a theorem for all lists
-- covers every order that Go may choose. A nil map is an empty one. An int or int64 is a word below
-- 2 ^ 64 in two's complement, and its arithmetic wraps. A time.Time is a number of nanoseconds since
-- Go's zero time; time.Sub saturates as in Go. A string is its list of code points; strings are taken
-- to be valid UTF-8. A float64 is its bit pattern. All loops run over lists and
-- end, but for the retries of sendWithRetry.
--
-- Parameters: strconv.FormatFloat, the Unicode tables of ToLower and EqualFold (which are exact on
-- ASCII), the SHA-1 digest in hexadecimal, the compilers of regular expressions, and, for the manager,
-- the store, the dispatcher, the queue producer, the clock and the local time zone. For the
-- dispatcher: the timer, text/template and strconv.Quote. For the senders: the client of Telegram's Bot
-- API, net/http, net/url, base64 and JSON. For ingest: encoding/json, the limited body of a request,
-- the sink and the NATS client. For the NATS store: the two buckets, JSON, and the texts of errors. For
-- the queue's worker: the handler, JSON and the NATS client. For the validation: text/template and
-- net/url. For the files of a configuration: the file system, TOML and the patterns of refused syntax.
--
-- Bounds: persist_external_refs makes three attempts, as the source does; digits_below writes at most
-- 20 digits, and an int64 has at most 19. send_attempts has fuel for its attempts: a policy with max_attempts
-- attempts needs no more, and one without a limit may go on for ever.
--
-- Not modelled: the network behind the clients of NATS, HTTP and Telegram, the redeliveries of
-- JetStream, JSON and TOML decoding, the set-up of the NATS buckets, the pages of the dashboard,
-- logging, and the start and the end of the service.
pub mod Base
pub mod Domain
pub mod Config
pub mod Engine
pub mod State
pub mod Permanent
pub mod Queue
pub mod Notify
pub mod Ingest
pub mod Manager
pub mod Service
mod Tests
