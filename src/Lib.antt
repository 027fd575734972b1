-- ===== src/Lib.antt =====
-- Ale, My Eyes! desktop: an assistant that operates a desktop for someone who uses it by voice. A phone, paired by
-- a code, sends commands over an encrypted channel; a model answers with a plan of actions; the
-- plan is assessed, previewed, confirmed on the phone and executed. Local models run in a process
-- of their own, ale-modeld, which also calls remote model services.
--
-- Files and what they model:
-- - Actions: ale-core/src/actions.rs. `ActionPlan` and its operations under their own names
--   (`add_action`, `recompute_risk`, `validate`, `parse_action_plan`, `parse_action_plan_arguments`).
--   serde_json is a parameter: what a text is read as.
-- - Secure: ale-gui/src/remote_crypto.rs. `SecureChannel` with `encrypt_message` and
--   `decrypt_frame`; the Noise transport (snow) and serde_json are the parameters `Transport` and
--   `Json`, and `Secure.Delivery.Reliable` states what the transport documents.
-- - Session: ale-gui/src/remote_server.rs, the server for one phone, and the messages of
--   ale-core/src/remote.rs (Messages). PendingPlans has `PendingPlans` and `prepare_confirm`, which
--   takes a plan of Actions out for execution; RateLimit has `RequestRate` and
--   `ClientRequestLimiter` (`allow_client` is its `allow`); Pairing has `PairingLimiter`; Audio has
--   `AudioAssembler`; Speech has `sanitize_speech_text`. Connection is the loop of
--   `handle_connection`, whose state holds these: `step` takes one input of the `select` (a timer, a
--   task's report, a control of the desktop, or what `decrypt_frame` of Secure makes of a frame).
--   Handlers has the arms of its match, Requests and Decisions how a request is put off and started,
--   Reports what the phone is told of a task's report.
-- - Modeld: Ipc is ale-core/src/model_ipc.rs and the token check of ale-modeld/src/main.rs;
--   Admission is the loop of `serve_connection` there, one event at a time; Retry is `retry` of
--   ale-core/src/model_api.rs; Circuit and Health are `remote_plan`, `configure_remote` and
--   `refresh_health` of ale-modeld/src/scheduler.rs. Jobs (the data of ale-core/src/model_scheduler.rs)
--   and Running are its `schedule` and `run_job`, which call `remote_plan` of Circuit; Configuring is
--   `configure_scheduler`, which does what Circuit and Health do for the older requests.
-- - Config: ale-core/src/config.rs. The structures and defaults; Validator is `ConfigValidator`, over
--   the URL parser as a parameter; Manager is `ConfigManager`, over the interface `SecretStore` of
--   secret_store.rs, whose promises are `Config.Manager.Atomic.IsLawful`; Manager/Loading is its
--   `load`, over serde_json as parameters.
-- - Supervisor: ale-gui/src/modeld.rs, `SupervisedModeldClient`, which starts ale-modeld again.
-- - Voice: ale-core/src/vad.rs, `VoiceActivityDetector`; the energy of a frame is a parameter.
-- - Routing and Manifest: ale-core/src/model_scheduler.rs, where a plan is made
--   (`route_planning`), the risk of semantic plans, and the manifest of the models to download.
-- - Prelude: names shared by all, with texts as lists of code points, bytes as numbers, floats as
--   bit patterns, and maps as association lists. Tests: runs on concrete inputs.
--
-- State is passed explicitly: an operation with `&mut self` takes the state and returns the next
-- one with its answer. A mutex's critical section is one step. Instants are numbers of milliseconds
-- (of seconds in Modeld/Health and Modeld/Configuring), and a difference of instants stops at zero as `duration_since`
-- does. Widths are written out where the source tests or wraps them. All loops are over lists, so
-- there is no fuel; `retry` recurs on the retries left, at most one.
--
-- Not modelled: the Noise handshake, what a task does once a connection has started it, the execution
-- of a plan, the migration of the configuration, the client of one instance of ale-modeld,
-- context and memory, downloads, worker processes, the user interface and the vendored window back end;
-- a send of the server that fails ends the connection and is left out. What is logged or audited, and
-- the texts of most messages, are left out.
pub mod Prelude
pub mod Actions
pub mod Secure
pub mod Session
pub mod Modeld
pub mod Routing
pub mod Manifest
pub mod Config
pub mod Supervisor
pub mod Voice
pub mod Tests
