-- ===== src/Gateway/Safety.antt =====
-- Runs that talk only to backends of the caller's virtual host and leave no connection open, and the
-- rules for the steps of a handler.
pub mod Asks
pub mod Rules
pub mod Handled
pub mod Rewrite
use contextforge_data_plane.Prelude.{
  Str, ◌≡◌, refl, sym, subst, ◌⊎◌, inl, inr, Bool, true, false, Bool-cases, List, [], ◌∷◌, Option,
  none, some, Option-cases, if◌then◌else◌, Result, ok, err, ok_or, ok-inj, All, any,
}
use contextforge_data_plane.Prelude.Map.{Map, lookup}
use contextforge_data_plane.Json.{Value, Fields}
use contextforge_data_plane.UserStore.{BackendMcpGateway, ServiceRoute, VirtualHost}
use contextforge_data_plane.Gateway.{
  ErrorData, ServiceError, RequestContext, NamedRequest, Reference, prompt_ref, resource_ref,
  other_ref, Call, call_tool, get_prompt, read_resource, complete, Event, before_hook, connecting,
  opened, refused, sent, not_sent, closed, after_hook, Run, done, emit, continue, ◌>>=◌,
  PreHookResult, PluginRuntime, McpService, unchanged,
}
use contextforge_data_plane.Gateway.Handlers.{
  validate_stateless, kept, pre_hook, pre_read, post_hook, connection_headers,
  connect_backend_for_request, exchange, tool_exchange, forwarded, check_headers, handle_call_tool,
  handle_get_prompt, handle_read_resource, handle_complete, rewrite_route, candidates,
  completion_route, rewritten_by, headers_of,
}
use contextforge_data_plane.Gateway.Session.{
  Phase, guarded, fresh, hooked, waiting, open_idle, open_used, ended, finished, dropped, step,
  steps, IsSettled, Ends,
}
use contextforge_data_plane.Gateway.Session.Steps.{
  Runs, done-Runs, bind-Runs, event-Runs, emit-Runs, check-Runs,
}

-- The name that a call asks a backend for.
abbrev pub target : Call → Str
target (call_tool request) = request.name
target (get_prompt request) = request.name
target (read_resource uri) = uri
target (complete (prompt_ref name) _) = name
target (complete (resource_ref uri) _) = uri
target (complete other_ref _) = []

pub ok_or-some : {A : Type 0} (e : ErrorData) (o : Option A) (a : A) → ok_or e o ≡ ok a → o ≡ some a
ok_or-some e none a h = cc
ok_or-some e (some b) a h = cc

abbrev pub IsReady : Phase → Type 0
IsReady p = (p ≡ fresh) ⊎ (p ≡ hooked)

pub settled : (q : Phase) → IsReady q → IsSettled q
settled q (inl e) = subst IsSettled (sym e) tt
settled q (inr e) = subst IsSettled (sym e) tt

-- The phase in which a handler that calls hooks starts: with plugins, the hook comes first.
abbrev pub start : {S : Type 0} → Option (PluginRuntime S) → Phase
start none = fresh
start (some _) = guarded

pub start-IsSettled : {S : Type 0} (o : Option (PluginRuntime S)) → IsSettled (start o)
start-IsSettled none = tt
start-IsSettled (some _) = tt

module _ {S : Type 0} where
  -- The hook before a call lets it go on, with these edits and this state.
  abbrev pub LetsOn :
      Option (PluginRuntime S)
      → (PluginRuntime S → Result ErrorData (PreHookResult S))
      → PreHookResult S
      → Type 0
  LetsOn none before pre = pre ≡ record { arguments = unchanged; state = none }
  LetsOn (some runtime) before pre = before runtime ≡ ok pre

  -- The same of the hook before a read, which is shown the URI of the route.
  abbrev pub LetsRead : Option (PluginRuntime S) → Str → Option S → Type 0
  LetsRead none uri state = state ≡ none
  LetsRead (some runtime) uri state =
      (s : S) × (runtime.before_read_resource uri ≡ ok s) × (state ≡ some s)

  -- What a backend replied becomes a result: by the hook after the call if the hook before it left a
  -- state, which is then the last event, and as it is otherwise, and then no hook follows.
  abbrev pub IsAnswer :
      Option (PluginRuntime S)
      → (PluginRuntime S → S → Value → Result ErrorData Value)
      → Option S
      → Value
      → Phase
      → Value
      → Type 0
  IsAnswer none after state response p v = (v ≡ response) × (p ≡ ended)
  IsAnswer (some runtime) after none response p v = (v ≡ response) × (p ≡ ended)
  IsAnswer (some runtime) after (some s) response p v =
      (after runtime s response ≡ ok v) × (p ≡ finished)

-- A handler that calls hooks ends with no connection open, and with a result only as its answer.
abbrev pub EndsAs : (Phase → Value → Type 0) → Phase → Result ErrorData Value → Type 0
EndsAs Answered p (ok v) = Answered p v
EndsAs Answered p (err _) = IsSettled p

module _ {S : Type 0} (service : McpService S) (cx : RequestContext) where
  -- The result v of a handler that calls hooks: what the hook after the call makes of a reply, to a call
  -- that the request and the hook before it ask a routed backend for.
  abbrev pub Answered :
      (VirtualHost → ServiceRoute → Call → Option S → Type 0)
      → (PluginRuntime S → S → Value → Result ErrorData Value)
      → Phase
      → Value
      → Type 0
  Answered Asks after p v =
      (host : VirtualHost) × (claims : Value) × (route : ServiceRoute)
      × (backend : BackendMcpGateway) × (call : Call) × (state : Option S) × (response : Value)
      × (validate_stateless cx ≡ ok (host, claims))
      × Asks host route call state
      × (lookup route.backend_name host.backends ≡ some backend)
      × (forwarded (service.upstream.reply backend call) ≡ ok response)
      × IsAnswer service.plugin_runtime after state response p v

module _ {S : Type 0} (service : McpService S) (cx : RequestContext)
    (Named : VirtualHost → ServiceRoute → Type 0) where
  -- A backend is one that the virtual host of the request has, under the name of a route that the
  -- request selects; a call asks it for the upstream name of that route.
  abbrev pub IsRoutedTo : BackendMcpGateway → ServiceRoute → Type 0
  IsRoutedTo backend route =
      (host : VirtualHost) × (claims : Value) × (validate_stateless cx ≡ ok (host, claims))
      × Named host route
      × (lookup route.backend_name host.backends ≡ some backend)

  abbrev pub IsRouted : Event → Type 0
  IsRouted (connecting backend _) = (route : ServiceRoute) × IsRoutedTo backend route
  IsRouted (sent backend call) =
      (route : ServiceRoute) × IsRoutedTo backend route × (target call ≡ route.upstream_name)
  IsRouted _ = Unit

  abbrev pub Safe : {A : Type 0} → Phase → Run A → Type 0
  Safe p m = Runs IsRouted p m Ends
