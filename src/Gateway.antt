-- ===== src/Gateway.antt =====
-- The gateway (crates/contextforge-data-plane-lib/src/gateway): the data of a request, the outcome of a
-- handler with the events that it causes, and the components that it talks to. `rmcp`'s client, a
-- backend's answers and the plugins are records of functions; a result of a backend is its JSON value.
pub mod Handlers
pub mod Session
pub mod Safety
pub mod Progress
mod Tests
use contextforge_data_plane.Prelude.{
  Str, str, Bool, List, [], ◌∷◌, ◌++◌, Option, none, some, if◌then◌else◌, Result, ok, err,
}
use contextforge_data_plane.Prelude.Map.{Map, lookup}
use contextforge_data_plane.Json.{Value, Fields}
use contextforge_data_plane.UserStore.{BackendMcpGateway, VirtualHost, UserConfig}
use contextforge_data_plane.Headers.{HttpCrates, HeaderMap}
use contextforge_data_plane.Headers.Integer.{ℤ}

pub data ErrorCode : Type 0 where
  internal_error : ErrorCode
  invalid_params : ErrorCode
  invalid_request : ErrorCode
  resource_not_found : ErrorCode
  header_mismatch : ErrorCode
  other_code : ℤ → ErrorCode

pub record ErrorData : Type 0 where
  pub code : ErrorCode
  pub message : Str
  pub data_value : Option Value

abbrev pub error : ErrorCode → Str → ErrorData
error code message = record { code = code; message = message; data_value = none }

-- `rmcp::service::ServiceError`, of which the code tells apart one case.
pub data ServiceError : Type 0 where
  mcp_error : ErrorData → ServiceError
  cancelled : Str → ServiceError
  transport_closed : ServiceError
  unexpected_response : ServiceError
  other_error : Str → ServiceError

-- The parts of the HTTP request, with the extensions that the layers insert.
pub record Parts : Type 0 where
  pub headers : HeaderMap
  pub user_config : Option UserConfig
  pub claims : Option Value
  pub virtual_host_id : Option Str

pub record RequestContext : Type 0 where
  pub parts : Option Parts
  pub protocol_version : Option Str
  pub progress_token : Option Str

pub record NamedRequest : Type 0 where
  pub name : Str
  pub arguments : Option Fields

pub data Reference : Type 0 where
  prompt_ref : Str → Reference
  resource_ref : Str → Reference
  other_ref : Reference

-- What is sent to a backend.
pub data Call : Type 0 where
  call_tool : NamedRequest → Call
  get_prompt : NamedRequest → Call
  read_resource : Str → Call
  complete : Reference → Value → Call

pub data Event : Type 0 where
  before_hook : Event
  connecting : BackendMcpGateway → Map Str → Event
  opened : Event
  refused : Event
  sent : BackendMcpGateway → Call → Event
  not_sent : Event
  closed : Event
  after_hook : Event

-- A handler's events, and what it returns.
abbrev pub Run {ℓ} : Type ℓ → Type ℓ
Run A = List Event × Result ErrorData A

abbrev pub done {ℓ} : {A : Type ℓ} → Result ErrorData A → Run A
done r = ([], r)

abbrev pub emit : Event → Run (Unit {0})
emit e = (e ∷ [], ok tt)

abbrev pub continue {ℓ κ} : {A : Type ℓ} {B : Type κ} → Result ErrorData A → (A → Run B) → Run B
continue (ok a) f = f a
continue (err e) f = ([], err e)

infixl 5 ◌>>=◌ ◌>>◌
unfoldable pub ◌>>=◌ {ℓ κ} : {A : Type ℓ} {B : Type κ} → Run A → (A → Run B) → Run B
m >>= f = let next = continue m.1 f in (m.0 ++ next.0, next.1)

abbrev pub ◌>>◌ {ℓ κ} : {A : Type ℓ} {B : Type κ} → Run A → Run B → Run B
m >> k = m >>= λ _. k

-- hooks.rs of the plugin crate: the edits of arguments, and what a hook before a call returns.
pub data ArgumentsUpdate : Type 0 where
  unchanged : ArgumentsUpdate
  replace : Option Fields → ArgumentsUpdate

abbrev pub apply_to : ArgumentsUpdate → Option Fields → Option Fields
apply_to unchanged arguments = arguments
apply_to (replace replacement) arguments = replacement

pub record PreHookResult (S : Type 0) : Type 0 where
  pub arguments : ArgumentsUpdate
  pub state : Option S

-- `GatewayPluginRuntimeHandle`, and the methods of the states that its hooks return.
pub record PluginRuntime (S : Type 0) : Type 0 where
  pub before_tool_call : NamedRequest → Str → Str → Result ErrorData (PreHookResult S)
  pub before_get_prompt : NamedRequest → Str → Str → Result ErrorData (PreHookResult S)
  pub before_read_resource : Str → Result ErrorData S
  pub rewritten_uri : S → Option Str
  pub after_tool_call : S → Value → Result ErrorData Value
  pub after_get_prompt : S → Value → Result ErrorData Value
  pub after_read_resource : S → Value → Result ErrorData Value

-- The parts of a URL, as the `url` crate reads it.
pub record UrlParts : Type 0 where
  pub scheme : Str
  pub host : Option Str
  pub port : Option Str

-- What the code uses of `url`, `rmcp` and of a backend: `serve` opens a connection to a URL with custom
-- headers and a protocol version; `start` enqueues a tool call; `reply` is what a call returns.
pub record Upstream : Type 0 where
  pub http : HttpCrates
  pub parse_url : Str → UrlParts
  pub trace_context : Map Str → Map Str
  pub has_standard_headers : Str → Bool
  pub serve : Str → Map Str → Str → Bool
  pub start : BackendMcpGateway → Call → Option ServiceError
  pub reply : BackendMcpGateway → Call → Result ServiceError Value

pub record McpService (S : Type 0) : Type 0 where
  pub upstream : Upstream
  pub plugin_runtime : Option (PluginRuntime S)
