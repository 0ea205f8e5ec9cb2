-- ===== src/Gateway/Handlers.antt =====
-- The handlers of gateway/mcp_service, with mcp_call_validator.rs, routing_error.rs and the connection
-- to a backend (initialization.rs). A cancelled call is one of the replies of a backend.
use contextforge_data_plane.Prelude.{
  Str, str, str_eq, Bool, false, not, List, [], ◌∷◌, ◌++◌, Option, none, some, if◌then◌else◌, any,
  Result, ok, err, ok_or,
}
use contextforge_data_plane.Prelude.Map.{Map, lookup, insert}
use contextforge_data_plane.Json.{Value}
use contextforge_data_plane.UserStore.{BackendMcpGateway, ServiceRoute, VirtualHost, UserConfig}
use contextforge_data_plane.Headers.{HeaderMap}
use contextforge_data_plane.Headers.Backend.{apply_header_config}
use contextforge_data_plane.Headers.Params.{validate_tool_params}
use contextforge_data_plane.Gateway.{
  internal_error, invalid_params, invalid_request, resource_not_found, header_mismatch, ErrorData,
  error, ServiceError, mcp_error, RequestContext, NamedRequest, Reference, prompt_ref, resource_ref,
  other_ref, Call, call_tool, get_prompt, read_resource, complete, before_hook, connecting, opened,
  refused, sent, not_sent, closed, after_hook, Run, done, emit, ◌>>=◌, unchanged, apply_to,
  PreHookResult, PluginRuntime, McpService,
}

abbrev pub routing_error : Str → ErrorData
routing_error reason = error internal_error (str "Routing problem... " ++ reason)

abbrev pub not_routed : Str → ErrorData
not_routed what = error invalid_params (str "Routing problem... " ++ what ++ str " not found")

-- `AuthorizedCallValidator::validate_stateless`.
abbrev user_config_of : RequestContext → Option UserConfig
user_config_of cx = elim cx.parts [ none ↦ none | some parts ↦ parts.user_config ]

abbrev virtual_host_id_of : RequestContext → Option Str
virtual_host_id_of cx = elim cx.parts [ none ↦ none | some parts ↦ parts.virtual_host_id ]

abbrev claims_of : RequestContext → Option Value
claims_of cx = elim cx.parts [ none ↦ none | some parts ↦ parts.claims ]

abbrev pub headers_of : RequestContext → Option HeaderMap
headers_of cx = elim cx.parts [ none ↦ none | some parts ↦ some parts.headers ]

unfoldable pub validate_stateless : RequestContext → Result ErrorData (VirtualHost × Value)
validate_stateless cx = elim (user_config_of cx) [
  | none ↦ err (routing_error (str "user config not found"))
  | some user_config ↦ elim (virtual_host_id_of cx) [
    | none ↦ err (routing_error (str "virtual host not known"))
    | some virtual_host_id ↦ elim (lookup virtual_host_id user_config.virtual_hosts) [
      | none ↦ err (error resource_not_found (str "No configuration"))
      | some virtual_host ↦ elim (claims_of cx) [
        | none ↦ err (routing_error (str "claims not found"))
        | some claims ↦ ok (virtual_host, claims)
      ]
    ]
  ]
]

abbrev pub backend_forward_error : ServiceError → ErrorData
backend_forward_error (mcp_error e) = e
backend_forward_error _ = routing_error (str "got no responses from backends")

-- `map_err` with it.
abbrev pub forwarded : Result ServiceError Value → Result ErrorData Value
forwarded (ok v) = ok v
forwarded (err e) = err (backend_forward_error e)

-- The route of a URI that a plugin wrote in place of the route's: the first resource of the virtual
-- host with that upstream name, unless another one is on another backend.
unfoldable pub candidates : Str → Map ServiceRoute → List ServiceRoute
candidates uri [] = []
candidates uri ((_, route) ∷ resources) =
    let rest = candidates uri resources in
    if str_eq route.upstream_name uri then route ∷ rest else rest

unfoldable pub select_candidate : List ServiceRoute → Result ErrorData ServiceRoute
select_candidate [] =
    err (error invalid_params (str "Plugin resource target is not available in this virtual host"))
select_candidate (rewritten ∷ others) =
    if any (λ c. not (str_eq c.backend_name rewritten.backend_name)) others
    then err (error invalid_params (str "Plugin resource target is ambiguous"))
    else ok rewritten

unfoldable pub rewrite_route :
    VirtualHost → ServiceRoute → Option Str → Result ErrorData ServiceRoute
rewrite_route virtual_host route none = ok route
rewrite_route virtual_host route (some uri) =
    if str_eq uri route.upstream_name
    then ok route
    else select_candidate (candidates uri virtual_host.resources)

abbrev pub completion_route : VirtualHost → Reference → Option ServiceRoute
completion_route virtual_host (prompt_ref name) = lookup name virtual_host.prompts
completion_route virtual_host (resource_ref uri) =
    elim (lookup uri virtual_host.resource_templates) [
      | some route ↦ some route
      | none ↦ lookup uri virtual_host.resources
    ]
completion_route virtual_host other_ref = none

abbrev pub rename : Reference → Str → Reference
rename (prompt_ref _) name = prompt_ref name
rename (resource_ref _) uri = resource_ref uri
rename other_ref _ = other_ref

module _ {S : Type 0} (service : McpService S) where
  unfoldable pub connection_headers : BackendMcpGateway → Option HeaderMap → Map Str
  connection_headers backend downstream =
      let url = service.upstream.parse_url backend.url in
      let authority : Str → Str =
        λ host. elim url.port [ none ↦ host | some port ↦ host ++ b':' ∷ port ] in
      let base : Map Str = elim url.host [
        | none ↦ []
        | some host ↦
            if str_eq url.scheme (str "https")
            then (elim (service.upstream.http.value_from_str (authority host)) [
              | none ↦ []
              | some value ↦ insert (str "host") value []
            ])
            else []
      ] in
      let http = service.upstream.http in
      service.upstream.trace_context (
        apply_header_config http.constants http.name_from_bytes http.value_from_str base backend
          downstream)

  unfoldable pub connect_backend_for_request : BackendMcpGateway → RequestContext → Run (Unit {0})
  connect_backend_for_request backend cx =
      let headers = connection_headers backend (headers_of cx) in
      emit (connecting backend headers) >>= λ _.
      if service.upstream.serve backend.url headers backend.mcp_protocol_version
      then emit opened
      else emit refused >>= λ _. done (err (routing_error (str "backend unavailable")))

  -- A call on an open connection, which is closed after it, whatever the reply.
  unfoldable pub exchange : BackendMcpGateway → Call → Run Value
  exchange backend call = do
    _ ← emit (sent backend call)
    _ ← emit closed
    done (forwarded (service.upstream.reply backend call))

  -- A tool call is enqueued first; when that fails, the connection is dropped.
  unfoldable pub tool_exchange : BackendMcpGateway → Call → Run Value
  tool_exchange backend call = elim (service.upstream.start backend call) [
    | some e ↦ (emit not_sent >>= λ _. done (err (backend_forward_error e)))
    | none ↦ exchange backend call
  ]

  -- The hook before a call, when there are plugins.
  abbrev pub pre_hook :
      (PluginRuntime S → Result ErrorData (PreHookResult S)) → Run (PreHookResult S)
  pre_hook before = elim service.plugin_runtime [
    | none ↦ done (ok (record { arguments = unchanged; state = none }))
    | some runtime ↦ (emit before_hook >>= λ _. done (before runtime))
  ]

  -- The hook after a call, when the hook before it left a state.
  abbrev pub post_hook :
      (PluginRuntime S → S → Value → Result ErrorData Value) → Option S → Value → Run Value
  post_hook after state response = elim service.plugin_runtime [
    | none ↦ done (ok response)
    | some runtime ↦ elim state [
      | none ↦ done (ok response)
      | some s ↦ (emit after_hook >>= λ _. done (after runtime s response))
    ]
  ]

  -- The check of the parameter headers in `call_tool`; the text of a mismatch is not modelled.
  unfoldable pub check_headers :
      NamedRequest → Str → BackendMcpGateway → RequestContext → Result ErrorData (Unit {0})
  check_headers request tool_name backend cx =
      let standard : Bool = elim cx.protocol_version [
        | none ↦ false
        | some version ↦ service.upstream.has_standard_headers version
      ] in
      if not standard then ok tt else (elim (lookup tool_name backend.tool_schemas) [
        | none ↦ ok tt
        | some schema ↦ elim (headers_of cx) [
          | none ↦ err (routing_error (str "request headers not found"))
          | some headers ↦
              elim (validate_tool_params service.upstream.http headers request.arguments schema) [
                | ok _ ↦ ok tt
                | err _ ↦ err (error header_mismatch [])
              ]
        ]
      ])

  unfoldable pub handle_call_tool : NamedRequest → RequestContext → Run Value
  handle_call_tool request cx = do
    host ← done (validate_stateless cx)
    route ← done (ok_or (not_routed (str "tool")) (lookup request.name host.0.tools))
    backend ← done (ok_or (not_routed (str "backend")) (lookup route.backend_name host.0.backends))
    _ ← done (check_headers request route.upstream_name backend cx)
    pre_result ←
        pre_hook
          (λ runtime. runtime.before_tool_call request route.upstream_name route.backend_name)
    _ ← connect_backend_for_request backend cx
    response ← tool_exchange backend (
        call_tool (record {
          name = route.upstream_name;
          arguments = apply_to pre_result.arguments request.arguments;
        }))
    post_hook (λ runtime. runtime.after_tool_call) pre_result.state response

  unfoldable pub handle_get_prompt : NamedRequest → RequestContext → Run Value
  handle_get_prompt request cx = do
    host ← done (validate_stateless cx)
    route ← done (ok_or (not_routed (str "prompt")) (lookup request.name host.0.prompts))
    backend ← done (ok_or (not_routed (str "backend")) (lookup route.backend_name host.0.backends))
    pre_result ←
        pre_hook
          (λ runtime. runtime.before_get_prompt request route.upstream_name route.backend_name)
    _ ← connect_backend_for_request backend cx
    response ← exchange backend (
        get_prompt (record {
          name = route.upstream_name;
          arguments = apply_to pre_result.arguments request.arguments;
        }))
    post_hook (λ runtime. runtime.after_get_prompt) pre_result.state response

  abbrev pub rewritten_by : Option S → Option Str
  rewritten_by state = elim service.plugin_runtime [
    | none ↦ none
    | some runtime ↦ elim state [ none ↦ none | some s ↦ runtime.rewritten_uri s ]
  ]

  abbrev pub kept : Result ErrorData S → Result ErrorData (Option S)
  kept (ok s) = ok (some s)
  kept (err e) = err e

  abbrev pub pre_read : ServiceRoute → Run (Option S)
  pre_read route = elim service.plugin_runtime [
    | none ↦ done (ok none)
    | some runtime ↦
        (emit before_hook >>= λ _. done (kept (runtime.before_read_resource route.upstream_name)))
  ]

  unfoldable pub handle_read_resource : Str → RequestContext → Run Value
  handle_read_resource uri cx = do
    host ← done (validate_stateless cx)
    route ← done (ok_or (not_routed (str "resource")) (lookup uri host.0.resources))
    state ← pre_read route
    target ← done (rewrite_route host.0 route (rewritten_by state))
    backend ← done (ok_or (not_routed (str "backend")) (lookup target.backend_name host.0.backends))
    _ ← connect_backend_for_request backend cx
    response ← exchange backend (read_resource target.upstream_name)
    post_hook (λ runtime. runtime.after_read_resource) state response

  unfoldable pub handle_complete : Reference → Value → RequestContext → Run Value
  handle_complete reference argument cx = do
    host ← done (validate_stateless cx)
    route ← done (ok_or (not_routed (str "completion")) (completion_route host.0 reference))
    backend ← done (ok_or (not_routed (str "backend")) (lookup route.backend_name host.0.backends))
    _ ← connect_backend_for_request backend cx
    exchange backend (complete (rename reference route.upstream_name) argument)

-- The requests that the data plane leaves to the control plane: the lists, `subscribe`, `unsubscribe`.
abbrev pub not_supported : Run Value
not_supported =
    done
      (err (error invalid_request (str "Fan out not supported at the moment. Go to control plane")))

-- `initialize`, from the requested protocol version; its result is the server information.
abbrev pub stateless_version : Str
stateless_version = str "2026-07-28"

unfoldable pub handle_initialize : Str → Value → Run Value
handle_initialize protocol_version server_info =
    if str_eq protocol_version stateless_version
    then done (err (error invalid_request (str "Initialize not supported by this dataplane")))
    else done (ok server_info)
