-- ===== src/Lib.antt =====
-- The ContextForge data plane: an MCP gateway that authorizes a request, finds the virtual host of its
-- path in the caller's configuration, and forwards a tool call, a prompt, a resource or a completion to
-- the backend that the configuration names, with plugins before and after the call; and the secrets
-- detection plugin, which scans the JSON of such calls and redacts or blocks what it finds.
--
-- Parts, and where they are modelled:
--   Prelude       Boolean tests, lists, texts as lists of bytes, maps, results, UTF-8
--   Json, Cmf     `serde_json::Value`, and the message payload of the plugin framework
--   UserStore     crates/contextforge-data-plane-apis/src/user_store.rs
--   Secrets       crates/plugins/cpex-secrets-detection/src: Patterns (patterns.rs), Config (config.rs),
--                 Scanner with Scanner/Tree (scanner.rs), Plugin (lib.rs)
--   Headers       crates/contextforge-data-plane-lib/src/mcp_standard_headers.rs: the names, Integer,
--                 Annotations and Params; Limits is layers/mcp_header_limits.rs, and Backend is
--                 `apply_header_config` of gateway/mcp_service/initialization.rs
--   Gateway       the data of a request and its events; Handlers is gateway/mcp_service/*.rs with
--                 mcp_call_validator.rs and routing_error.rs; Session is the life of a connection,
--                 and Progress is backend_client.rs
--   Plugins       crates/contextforge-data-plane-cpex/src: Plugins is cmf.rs and hooks.rs; Runtime is
--                 runtime.rs; Config is config.rs, factory.rs and error.rs; Registry is registry/mod.rs;
--                 Prompts, Resources and Tools are the files of these names, over the data of Mcp
--   Stores        crates/contextforge-data-plane-lib/src/config_stores
--   Authorization crates/contextforge-data-plane-lib/src/authorization: jwks/*.rs; Principal is the
--                 extractor of cel_principal_extractor.rs
--   Config        crates/contextforge-data-plane-lib/src/common/config.rs
--   Layers        layers/*.rs and errors.rs, in the order of `Gateway::into_router` in lib.rs
--
-- How the parts interact: the layers insert the claims, the principal, the configuration and the
-- virtual host of a request as its extensions; a handler reads them (`validate_stateless`), looks up the
-- route and the backend, checks parameter headers, calls the plugins and connects with the headers that
-- the backend's configuration gives. A handler returns its events with its result, so the order of its
-- effects is data. A function of the code has the same name here, but for the handlers of requests,
-- which are `handle_call_tool`, `handle_get_prompt`, `handle_read_resource`, `handle_complete` and
-- `handle_initialize`, since `call_tool` and so on are calls of a backend.
--
-- The plugin runtime that a handler calls is a record in Gateway; Plugins models what stands behind it: the
-- registry's runtime is reloaded by a watcher, a call asks the handle for the current one, and the hooks
-- before and after the call show its data to the plugins and apply their edits. Likewise Authorization and
-- Stores stand behind `authorize` and `get_config` of the state of the layers, and Config behind their Redis.
--
-- What is a parameter: regular expressions (`Matcher`), header names and values, Base64 and the names of
-- headers (`HttpCrates`), URLs, the MCP client and a backend's replies (`Upstream`), the plugin runtime
-- (`PluginRuntime`), token verification, the extraction of a principal and the configuration store
-- (`AppState`); the plugins with their manager and the views of a message (`CpexCrate`, `Managers`), the
-- decoders of a configuration (`Decoders`), `rmcp`'s results (`RmcpCrate`) and `serde_json` on messages and
-- events (`MessageJson`, `Serde`), the LRU cache and the encoding of the store (`Cache`, `Encoding`), and
-- `jsonwebtoken` (`JwtCrate`). What Redis or the key server answers is an argument of the operation, and
-- the file system with the readers of certificates a record (`System`). A hash map is a list in the order
-- in which it happens to be iterated.
--
-- Loops are structural recursion on lists, JSON values and schemas, and the watcher's endless loop is one on
-- the list of its wakes; printing a 64-bit number divides by ten at most 19 times, enough for its 20 digits.
-- A panic is `none` where the code can panic. Integers of the header code are natural numbers with the checks of the code
-- for 64 bits written out; sums of the header budget saturate at 2^64 - 1.
--
-- Not modelled: the texts of header errors, logging, tracing and metrics, sockets and TLS, the command
-- line but for the options of Redis and of the backends' client, the shutdown of a dropped plugin manager,
-- the locks and the tasks that share a state, and the verification of signatures, which `jsonwebtoken` does.
mod Prelude
pub mod Json
pub mod Cmf
pub mod Secrets
pub mod UserStore
pub mod Headers
pub mod Gateway
pub mod Layers
pub mod Plugins
pub mod Stores
pub mod Authorization
pub mod Config
