-- ===== src/Lib.antt =====
-- CRMTSiAPP: the queues, the set-up, the providers, the automations, the access rules, the
-- inbox and the live event stream of a CRM.
--
-- An HTTP server stores what agents and contacts write in PostgreSQL. A message that goes out is a
-- row of `outbox_jobs`; workers claim the rows under a lease, hand them to the adapter of the
-- channel's provider and report back. What comes in is a row of `webhook_events`, which a second
-- kind of worker processes in the same way. Agents see what happens through a hub that writes
-- events to their open connections. A new installation is set up once, by a state machine,
-- and each tenant by a service that keeps the same states in a table. The providers of a tenant have
-- configurations and encrypted credentials, and an automation is a graph with published versions. What a
-- campaign sends is compiled from blocks to HTML. A
-- session acts in one tenant with one role, and operators use a command line, whose operations run
-- once for a key. An assistant may run tools that were shown to its user before, and entities are
-- written to other systems until too many writes fail.
--
--   Common              tests on numbers and texts, lists, texts as lists of code units, results
--   Outbox              outbox.js: the rows, and one function for each SQL statement
--     Claim             claimNextJob
--     Enqueue           enqueue
--     Retry             nextRetryAt, classifyFailure, markFailed
--     Protocol          any interleaving of the workers, as a step relation: a worker keeps the job
--                       that it was given and may report on it late, or more than once
--     Worker            outbox-worker.js: processOne, loadJobChannel, mergeChannelCredentials
--   Webhook             webhook-worker.js: claimNextWebhook, markWebhookProcessed, markWebhookFailed,
--                       processOneWebhook
--   Setup               modules/setup/state-machine.js: transition, setDraftConfig, validateDraft
--     Validation        modules/setup/setup-validation.js: validateProviderConfig, validateWahaConfig,
--                       redactConfig, sanitizeError
--     Service           modules/setup/setup-service.js: bootstrap, setDraftConfig, validateDraft,
--                       activate up to its commit, rotateBootstrapSecret, the reads
--     Service.Calls     the rest of activate, and the calls of the service one after the other, in
--                       which an activation is two calls, since others may come between
--   Providers.Schema    modules/providers/provider-registry.js: validateSchema and what calls it
--     Normalize         the adapters' normalizeConfig and normalizeCredentials
--     Endpoint          modules/providers/provider-validation.js
--     Envelope          modules/providers/credential-service.js: encrypt, decrypt
--     Credentials       the same file: createCredentialService
--     Service           modules/providers/provider-service.js: the rows and their trigger, and, in
--                       Calls, the operations
--   Automation.Schema   modules/automation/graph-schema.js
--   Automation.Graph    modules/automation/graph-validator.js
--   Automation.Editor   modules/automation/editor-service.js
--   Marketing.Content   modules/marketing/content-schema.js, channel-capabilities.js
--   Marketing.Compile   modules/marketing/content-compiler.js
--   Access.Roles        rbac.js, authorization.js, modules/identity/authorization-service.js
--   Access.Tenant       tenant-context.js: normalizeTenantId, resolveTenantContext
--   Access.LoginLimit   security.js: createLoginRateLimiter
--   Shared.Idempotency  modules/shared/idempotency-service.js: claimIdempotency, resolveIdempotency
--   Cli                 modules/cli/parser.js: parseArgs, parseCommand, validateCommand
--   Cli.Operation       modules/cli/operation-runner.js: run, and withTransaction of bin/crm-cli.js
--   Operations.Drain    modules/operations/job-store.js: drainQueue, pauseClaims, resumeClaims
--   Integrations.Sync   modules/integrations/sync-service.js
--   Ai.Tools            modules/ai/tool-service.js
--   Inbox.Intake        channel-webhook-service.js, webhook-ingest.js
--   Inbox.Processor     webhook-processor.js, and updateStatus of tenant-inbox-store.js
--   Realtime.Store      modules/realtime/event-store.js
--   Realtime.Route      modules/realtime/routes.js: parseCursor, sseRoute
--   Realtime.Registry   modules/realtime/connection-registry.js: register, send, sendTo, close, and
--                       the listeners of the response
--   Realtime.Hub        modules/realtime/sse-hub.js: audienceAllows, publish
--   Realtime.Client     public/js/realtime-inbox.js: receive, and, in Paging, replayBeyondLimit
--   Realtime.Protocol   modules/realtime/sse-protocol.js: eventFrame, heartbeatFrame
--
-- A function keeps its name, in snake case. A table is a list of rows, and a statement of SQL a
-- function on that list which runs as one step; `skip locked` is a parameter that says which rows
-- other transactions have locked. The tables are taken to have the columns that the statements
-- name. Random values and the clock are arguments, and a token is one that was not made before.
-- Times are natural numbers of milliseconds. Where code units matter, a text is the list of them.
-- What an exception leaves behind is written out: an operation that can fail after it changed the
-- state answers the state and a result. The loops go over lists. Four run on fuel: the decimal digits
-- of a number, on one more than the number, which has no more digits than that; the walk of a
-- graph, on as many nested calls as there are nodes and one, since it goes no deeper than that
-- without meeting a node that it is visiting; replayBeyondLimit, on more rounds than there are events
-- of its audience after the cursor, since each round takes one or ends; and the wait of drainQueue, on more
-- rounds than the timeout has milliseconds, since each round takes at least one.
--
-- A connection object stays in the list of the registry when it leaves the `Set`, and its place is
-- its identity; the response of Node is a record of its `write` and `end`, and its documented
-- behaviour (it buffers all that is written) is a record of laws where a theorem needs it. The
-- hub's authorisation is a function of the session and the event, so that no other call runs
-- between its rounds. The JSON text of an event is a field. Adapters, channel secrets, hashes,
-- ciphers, the constructor `URL`, `fetch`, the fetchPage of the pages and the order of
-- `localeCompare` are parameters. A value of JSON is a text or one of the few kinds that the code
-- tells apart.
--
-- Not modelled: the HTTP server, pages and timers, the remaining services under modules/, and the
-- data definitions, which were read for the columns and constraints that the queues rely on.
pub mod Common
pub mod Outbox
pub mod Setup
pub mod Realtime
pub mod Webhook
pub mod Cli
pub mod Access
pub mod Automation
pub mod Ai
pub mod Inbox
pub mod Integrations
pub mod Marketing
pub mod Operations
pub mod Providers
pub mod Shared
