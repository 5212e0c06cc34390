-- ===== src/Lib.antt =====
-- YipYap: an uptime monitor with alert escalation. The scheduler (internal/checker) runs the checks of
-- the monitors and publishes `alert.trigger` and `alert.recover` when a status changes. The escalation
-- engine (internal/escalation) turns these messages, the acknowledgements and a ticker into alerts,
-- escalation states and notifications, which it writes through the store (internal/store/sqlite). Its
-- CloudEvents go to outside systems, whose replies come back through the reply dispatcher
-- (internal/cloudevents/reply), which knows the events that were sent and limits the rate of replies.
--
-- Prelude: names of the libraries, Boolean tests, lists over native numbers, signed integers, texts and
-- `time.Duration` with its 64-bit wrap-around.
-- Domain: the records of internal/domain, with the fields that the modelled code reads or writes.
-- Store: the queries of internal/store/sqlite/alerts.go and escalations.go over lists of rows. Create, Update,
-- GetByID, GetActiveByMonitor, ListFiring and the escalation-state queries keep the primary keys and the unique
-- index of migration 005; Store/Time is the rounding of instants to the second in helpers.go.
-- Escalation: internal/escalation/engine.go, with oncall.go, engine_quota.go and engine_services.go. World has
-- the engine's state and its environment Env: what it reads, and which of its writes fail. Notify is
-- notifyStep and resolveTarget; Handlers is handleTrigger, handleRecover, autoResolveAlerts and
-- handleAck; Tick is processFiringAlerts, its guards collected in `decide` and its branches in `apply`. Run is
-- the subscriptions of Start and the ticker: a list of messages, each with an environment of its own.
-- Checker: internal/checker. Rules is rules.go; Judge is the first half of executeCheck, Scheduler the second; Heartbeat is
-- executeHeartbeatCheck; Runners is the table of running monitors and resyncFromDB.
-- Reply: internal/cloudevents/reply. RateLimiter, Registry and Dispatcher are rate_limiter.go, registry.go and
-- dispatcher.go, with MatchAnyGlob of internal/cloudevents/match.go.
-- Oidc: internal/cloudevents/oidc/verifier_cache.go. The two critical sections of Get are steps of their own, so that a list
-- of steps is any interleaving of calls.
-- Targets: internal/checker/ssrf.go and ssrf_dialer.go. Address is isPrivateIP over the bytes of an address, Notation
-- parseNonStandardIP with strconv.ParseUint, and Validation the checks of hosts and URLs, with what package net and the
-- resolver answer in Env.
-- Keys: internal/auth/jwks. Store is keystore.go with the table of internal/store/sqlite/oidc_signing_keys.go; Manager is
-- rotateLocked of manager.go, Serving its other calls with boot.go and handler.go, and Rotation the loop of rotation.go
-- as a list of rotations, each with an environment Env of its own that says which queries fail.
-- Replies: internal/cloudevents/reply/handlers, with alerts_phase5.go, monitors_phase5.go and phase5_reply.go of
-- internal/store/sqlite. Db is the tables that the handlers touch, and Env what they read elsewhere and which writes fail; a
-- handler takes its decoded payload and the tables, and gives its error and the tables after it. Annotations, Mutations,
-- Elevated and Remediations are the thirteen handlers, Handling is register.go, and Dispatching joins them to the dispatcher
-- of Reply.
-- Maintenance: Window is IsActiveAt of internal/domain/maintenance.go, Ticker is poll of
-- internal/maintenance/ticker.go.
-- Delivery: internal/notify. Dispatch is Dispatch and markSeen of dispatcher.go, where a pool is known by its
-- channel and what is submitted is a log; Worker is sendWithRetry and the counters of worker.go, whose attempts are
-- told by a function from their number; Outbox is the subscription of Start and processOutbox.
-- Bus: internal/bus/channel.go. Subjects is subjectMatches; Channel is QueueSubscribe, Unsubscribe and Publish, which
-- returns the subscriptions whose handlers are started, with the random numbers as a function of the queue's name.
-- The other modules of each folder hold lemmas, and Tests concrete runs.
--
-- Instants are nanoseconds as natural numbers. Durations and the decision of the rate limiter are
-- 64-bit integers with their wrap-around; other Go integers have no bound. A call sees one reading of the clock. An
-- identifier that is generated is a function of a counter, and may be anything. JSON, formatted texts,
-- encryption, signing keys, base64, `path.Match`, regular expressions and the checks over the network are
-- parameters, as are `url.Parse`, `strings.ToLower` and the seconds of a Duration, which Go computes in floating point. The
-- bytes of a text are those of its code points. autoResolveAlerts runs on fuel, one round for each alert and one more, which is enough over a
-- table that keeps its constraints. The metrics of the engine are an interface, for which this build has no implementation:
-- `has_metrics` stands for one that is handed to NewEngine, and the model keeps its calls and the sum of the gauge. A map with its linked list is one list.
--
-- Not modelled: goroutines and channels, whose work comes as a sequence of steps; notification
-- providers; the HTTP API; tokens and
-- the OIDC client;
-- retention and rollups; the other stores.
pub mod Bus
pub mod Checker
pub mod Delivery
pub mod Domain
pub mod Escalation
pub mod Keys
pub mod Maintenance
pub mod Oidc
pub mod Prelude
pub mod Replies
pub mod Reply
pub mod Store
pub mod Targets
