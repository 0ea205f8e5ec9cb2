-- ===== src/Gateway/Safety/Asks.antt =====
-- What a request and the hook before its call ask a backend for.
use contextforge_data_plane.Prelude.{Str, ◌≡◌, Option, some, ok}
use contextforge_data_plane.Prelude.Map.{lookup}
use contextforge_data_plane.UserStore.{BackendMcpGateway, ServiceRoute, VirtualHost}
use contextforge_data_plane.Gateway.{
  RequestContext, NamedRequest, McpService, Call, call_tool, get_prompt, read_resource,
  PreHookResult, apply_to,
}
use contextforge_data_plane.Gateway.Handlers.{check_headers, rewrite_route, rewritten_by}
use contextforge_data_plane.Gateway.Safety.{target, LetsOn, LetsRead}

module _ {S : Type 0} (service : McpService S) where
  -- The route of a tool whose parameter headers pass their check, the call of it that the hook before it
  -- lets on, with its edit of the arguments, and the state that the hook leaves.
  abbrev pub AsksTool :
      NamedRequest → RequestContext → VirtualHost → ServiceRoute → Call → Option S → Type 0
  AsksTool request cx host route call state =
      (lookup request.name host.tools ≡ some route)
      × ((backend : BackendMcpGateway)
          → lookup route.backend_name host.backends ≡ some backend
          → check_headers service request route.upstream_name backend cx ≡ ok tt)
      × ((pre : PreHookResult S) × LetsOn service.plugin_runtime
            (λ runtime. runtime.before_tool_call request route.upstream_name route.backend_name) pre
          × (call
              ≡ call_tool (record {
                name = route.upstream_name;
                arguments = apply_to pre.arguments request.arguments;
              }))
          × (state ≡ pre.state))

  -- The same of a prompt.
  abbrev pub AsksPrompt : NamedRequest → VirtualHost → ServiceRoute → Call → Option S → Type 0
  AsksPrompt request host route call state =
      (lookup request.name host.prompts ≡ some route)
      × ((pre : PreHookResult S) × LetsOn service.plugin_runtime
            (λ runtime. runtime.before_get_prompt request route.upstream_name route.backend_name)
            pre
          × (call
              ≡ get_prompt (record {
                name = route.upstream_name;
                arguments = apply_to pre.arguments request.arguments;
              }))
          × (state ≡ pre.state))

  -- The route of a URI, whose hook lets it be read, or the route that the URI which the hook wrote in its
  -- place selects.
  abbrev pub AsksResource : Str → VirtualHost → ServiceRoute → Call → Option S → Type 0
  AsksResource uri host target call state =
      (route : ServiceRoute) × (lookup uri host.resources ≡ some route)
      × LetsRead service.plugin_runtime route.upstream_name state
      × (rewrite_route host route (rewritten_by service state) ≡ ok target)
      × (call ≡ read_resource target.upstream_name)

  -- A route that a request selects and that the hook before the call lets it take.
  abbrev pub Selects :
      (VirtualHost → ServiceRoute → Call → Option S → Type 0) → VirtualHost → ServiceRoute → Type 0
  Selects Asks host route = (call : Call) × (state : Option S) × Asks host route call state
