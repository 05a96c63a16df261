-- ===== src/Lib.antt =====
-- Foreman: a control plane that runs coding agents in sandboxes.
--
-- A task becomes a session. The coordinator creates the session in the control plane, which keeps it
-- in memory, persists it in the state store, writes the audit trail and publishes an event for every
-- change of status. The coordinator then runs the agent in a sandbox, watches its heartbeats, reads
-- its output, and asks a human before a session completes whose tool calls match an approval policy.
--
-- The files, and the code that they model:
--
-- Prelude and its children: Go's results, maps (association lists) and strings.
-- Schemas: internal/schemas/event.go and subject.go, as far as the modelled code uses them.
-- EventBus.Subject: `matchSubject` of internal/eventbus/memory.go. EventBus.Memory: `MemoryBus`.
--   EventBus.Bus: the interface of internal/eventbus/eventbus.go, a log of what was published.
--   EventBus.Nats: internal/eventbus/nats.go; Opening has what it opens and closes, Consuming the
--   loop of `Subscribe`, beside the in-process bus.
-- StateStore: the tables of internal/statestore/migrations and the queries of
--   internal/statestore/postgres.go.
-- ControlPlane: internal/controlplane/session.go (`CreateSession`, `Transition`, `Recover`,
--   `SaveCheckpoint`, `Audit`). Its children: the state machine as a relation (Steps), what calls do to
--   sessions (Lifecycle, Transition, Undone), the audit trail, and the agreement with the store
--   (Recovery, Sync, SyncCreate, SyncCheckpoint, SyncRun).
-- Policy: internal/policy/policy.go.
-- Coordinator: internal/coordinator/coordinator.go. Coordinator itself has `New`, the admission of
--   tasks, `SubmitTask` and `ResumeSession`; Approval the approval gate; Heartbeat `monitorHeartbeat`;
--   Run `runAgent` and `handleCrash`, whose end is in Run.Finish; Reaping `ReapOrphanedContainers` and
--   `Drain`; Resources `monitorResources`; Submitted the handler of `Start`; Backoff
--   `backoffDuration`; Starting follows a submission to its goroutine.
-- McpHub: internal/mcphub/mcphub.go.
-- Bootstrap: the part of internal/core/builder.go that takes up recovered sessions after a restart.
--   Bootstrap.Chat: the messages of chat users that become tasks, and what the user is answered
--   (FromSlack, Answered, Said, and OverNats with the bus of NATS). Bootstrap.Wiring: the choice of the
--   parts, the routes, and the order of opening and closing (Opening).
-- Plugins: internal/plugins/slack/plugin.go (Slack) and internal/plugins/discord/plugin.go (Discord),
--   with what they send (Sending) and what comes (Receiving); Blocks and Command have what they share,
--   Pressing and Buttons compare them. Plugins.Cli: internal/plugin/plugin.go.
-- Sandbox: internal/sandbox/docker.go. Sandbox itself has `Provision`, `Execute`, `Heartbeat` and
--   `Destroy`; Client the calls of the Docker client; Files `WriteFile` and `ReadFile`; Frames
--   `SubscribeEvents`; Gateway `defaultGateway`; Hosts `ResolveHost`. Containers states what is relied
--   on of a daemon; the other children follow the containers through the operations.
-- Adapters: internal/adapter, as an instance of the interface that Coordinator declares. Inputs follows
--   a line of opencode to the approval gate.
-- Api: the handlers of internal/core/builder.go. Submitting follows a task into the coordinator,
--   Answering what is made of the other calls.
-- Identity: internal/identity/issuer.go; Tokens has what is relied on of the library for tokens. Its
--   children: Middleware (middleware.go), Keys (keymanager.go) and Settings (config.go).
-- GithubApp: the webhook of internal/identity/githubapp/webhook.go. GithubApp.Client: client.go beside
--   it.
--
-- How the state is modelled. Each function takes the state and returns the new one, with its error or
-- value. A call reads the clock once, as its argument `now`. The outcomes of the bus and of the pool
-- of database connections are lists in the state, chosen by the environment and used up one for a
-- call; with none left, calls succeed. One run of an agent has its outside answers in the record
-- `World`: the token issuer, the sandbox, the beats, the human, and whether the context lasts through
-- the backoff. The agent's adapter, `filepath.Match`, `regexp`, `ResolveTools`, and the webhook's
-- store, HMAC and parser, the Docker client with its daemon, the library for
-- tokens, floating point numbers and the decoder of JSON are parameters. What the chat services and
-- the server of NATS deliver are inputs, and the calls of them a log or outcomes.
-- The clock counts nanoseconds. What a TIMESTAMPTZ keeps of a time and a JSONB of a document are two
-- functions of the database, `timestamptz` and `jsonb`, and every query that writes such a column
-- applies them; the witnesses have whole microseconds. What is read back and restored is what the
-- column keeps.
-- A status is one of the seven constants or any other text. The reference to a checkpoint is the
-- number of which the column has the text. Functions that the code cuts nowhere are cut at its early
-- returns; the names of the pieces are the model's own.
--
-- The sandbox of docker.go and the `World` of a run are separate models: the coordinator calls an
-- interface, of which docker.go is the one implementation.
--
-- Fuel. `chain`, which follows the retries of a session, has some; the theorem about it says how much
-- is enough. `read_frames` takes the length of its stream, of which each round uses eight bytes at
-- least. The other loops are recursion on the lists that they go through.
--
-- Not modelled: identifiers of events (a session and a time stamp), logging, the debugging commands
-- in the sandbox, the host's environment variables and the rewriting of host names in them, the
-- statistics of a container, the HTTP server itself, and the reading of the configuration file. Calls
-- of the coordinator are made one after the other; its lock is not modelled.
pub mod Adapters
pub mod Api
pub mod Bootstrap
pub mod ControlPlane
pub mod Coordinator
pub mod EventBus
pub mod GithubApp
pub mod Identity
pub mod McpHub
pub mod Plugins
pub mod Policy
pub mod Prelude
pub mod Sandbox
pub mod Schemas
pub mod StateStore
