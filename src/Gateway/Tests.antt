-- ===== src/Gateway/Tests.antt =====
-- Runs of the handlers, and the instances of their theorems.
use contextforge_data_plane.Prelude.{
  Str, str, str_eq, ◌≡◌, refl, true, false, [], ◌∷◌, none, some, All, ok,
}
use contextforge_data_plane.Json.{string}
use contextforge_data_plane.Gateway.Progress.{
  InFlightToolCall, Progress, start_tool_call, stop_tracking_tool_call, on_progress,
}
use contextforge_data_plane.Gateway.Progress.Relay.{Relays, on_progress-start_stop}
use contextforge_data_plane.Prelude.{◌⊎◌, Option, Result}
use contextforge_data_plane.Prelude.Map.{Map}
use contextforge_data_plane.Gateway.{ErrorData}
use contextforge_data_plane.UserStore.{BackendMcpGateway, ServiceRoute, VirtualHost}
use contextforge_data_plane.Headers.{HttpCrates}
use contextforge_data_plane.Gateway.{
  RequestContext, NamedRequest, unchanged, PluginRuntime, Upstream, McpService,
}
use contextforge_data_plane.Gateway.Handlers.{
  handle_call_tool, handle_get_prompt, handle_read_resource, candidates, rewrite_route,
}
use contextforge_data_plane.Gateway.Session.{guarded}
use contextforge_data_plane.Gateway.Session.Steps.{Runs}
use contextforge_data_plane.Gateway.Safety.{Answered, EndsAs, IsRouted}
use contextforge_data_plane.Gateway.Safety.Asks.{AsksTool, AsksPrompt, AsksResource, Selects}
use contextforge_data_plane.Gateway.Safety.Handled.{
  handle_call_tool-Safe, handle_get_prompt-Safe, handle_read_resource-Safe,
}
use contextforge_data_plane.Gateway.Safety.Rewrite.{IsFirst, IsOn, rewrite_route_unique}
use contextforge_data_plane.Gateway.{◌>>=◌}
use contextforge_data_plane.Gateway.Handlers.{
  check_headers, connect_backend_for_request, exchange, select_candidate, tool_exchange,
  validate_stateless,
}
use contextforge_data_plane.Prelude.Map.{lookup}
use contextforge_data_plane.Prelude.Map.{insert}

abbrev http : HttpCrates
http = record {
  constants = record {
    mcp_method = str "mcp-method";
    mcp_name = str "mcp-name";
    mcp_protocol_version = str "mcp-protocol-version";
    session_id = str "mcp-session-id";
    mcp_param_prefix = str "mcp-param-";
    base64_prefix = str "=?base64?";
    base64_suffix = str "?=";
  };
  name_from_bytes = λ name. some name;
  value_from_str = λ value. some value;
  base64_decode = λ text. none;
}

abbrev upstream : Upstream
upstream = record {
  http = http;
  parse_url = λ url. record { scheme = str "https"; host = some (str "b.example"); port = none };
  trace_context = λ headers. headers;
  has_standard_headers = λ version. true;
  serve = λ url headers version. true;
  start = λ backend call. none;
  reply = λ backend call. ok (string backend.name);
}

-- Plugins that send every resource to another URI.
abbrev plugins : PluginRuntime Str
plugins = record {
  before_tool_call =
      λ request name backend. ok (record { arguments = unchanged; state = some name });
  before_get_prompt =
      λ request name backend. ok (record { arguments = unchanged; state = some name });
  before_read_resource = λ uri. ok (str "file:///up2");
  rewritten_uri = λ s. some s;
  after_tool_call = λ s response. ok response;
  after_get_prompt = λ s response. ok response;
  after_read_resource = λ s response. ok (string s);
}

abbrev service : McpService Str
service = record { upstream = upstream; plugin_runtime = some plugins }

abbrev backend : BackendMcpGateway
backend = record {
  name = str "b";
  url = str "https://b.example/mcp";
  mcp_protocol_version = str "2026-07-28";
  passthrough_headers = [];
  add_headers = [];
  remove_headers = [];
  completion = [];
  tool_schemas = [];
}

abbrev route : Str → ServiceRoute
route upstream_name = record { backend_name = str "b"; upstream_name = upstream_name }

abbrev host : VirtualHost
host = record {
  backends = (str "b", backend) ∷ [];
  tools = (str "b-echo", route (str "echo")) ∷ [];
  resources = (str "r1", route (str "file:///up1")) ∷ (str "r2", route (str "file:///up2")) ∷ [];
  resource_templates = [];
  prompts = (str "b-hello", route (str "hello")) ∷ [];
}

abbrev cx : RequestContext
cx = record {
  parts = some (record {
    headers = [];
    user_config = some (record { virtual_hosts = (str "vh", host) ∷ [] });
    claims = some (string (str "alice"));
    virtual_host_id = some (str "vh");
  });
  protocol_version = some (str "2026-07-28");
  progress_token = none;
}

abbrev echo : NamedRequest
echo = record { name = str "b-echo"; arguments = none }

abbrev hello : NamedRequest
hello = record { name = str "b-hello"; arguments = none }

handle_call_tool-Safe_example :
    Runs
      (IsRouted service cx (Selects service (AsksTool service echo cx)))
      guarded
      (handle_call_tool service echo cx)
      (EndsAs (Answered service cx (AsksTool service echo cx) (λ p. p.after_tool_call)))
handle_call_tool-Safe_example = handle_call_tool-Safe service echo cx

handle_get_prompt-Safe_example :
    Runs
      (IsRouted service cx (Selects service (AsksPrompt service hello)))
      guarded
      (handle_get_prompt service hello cx)
      (EndsAs (Answered service cx (AsksPrompt service hello) (λ p. p.after_get_prompt)))
handle_get_prompt-Safe_example = handle_get_prompt-Safe service hello cx

handle_read_resource-Safe_example :
    Runs
      (IsRouted service cx (Selects service (AsksResource service (str "r1"))))
      guarded
      (handle_read_resource service (str "r1") cx)
      (EndsAs (Answered service cx (AsksResource service (str "r1")) (λ p. p.after_read_resource)))
handle_read_resource-Safe_example = handle_read_resource-Safe service (str "r1") cx

-- The handler reads the plugin's URI and returns what the plugin makes of the reply.
read_rewritten : (handle_read_resource service (str "r1") cx).1 ≡ ok (string (str "file:///up2"))
unfolding handle_read_resource ◌>>=◌ validate_stateless lookup str_eq str rewrite_route
    select_candidate candidates connect_backend_for_request exchange
read_rewritten = refl

tool_reply : (handle_call_tool service echo cx).1 ≡ ok (string (str "b"))
unfolding handle_call_tool ◌>>=◌ validate_stateless lookup str_eq str check_headers
    connect_backend_for_request tool_exchange exchange
tool_reply = refl

other_uri : str_eq (str "file:///up2") (route (str "file:///up1")).upstream_name ≡ false
unfolding str_eq str
other_uri = refl

rewritten :
    rewrite_route host (route (str "file:///up1")) (some (str "file:///up2"))
    ≡ ok (route (str "file:///up2"))
unfolding rewrite_route str_eq str select_candidate candidates
rewritten = refl

rewrite_route_unique_example :
    IsFirst (str "file:///up2") (route (str "file:///up2")) host.resources
    × All (IsOn (str "file:///up2") (str "b")) host.resources
rewrite_route_unique_example =
    rewrite_route_unique host (route (str "file:///up1")) (route (str "file:///up2"))
      (str "file:///up2") other_uri rewritten

abbrev keep : Str → Progress → Result ErrorData (Option Progress)
keep s p = ok (some p)

abbrev half : Progress
half = record { progress_token = str "7"; progress = string (str "50%") }

abbrev in_flight : Map (InFlightToolCall Str)
in_flight =
    (
      str "7",
      record {
        downstream_progress_token = str "client";
        post_state = none;
        downstream = str "peer";
      },
    )
    ∷ []

started :
    start_tool_call (ok (str "7")) (some (str "client")) (str "peer") none []
    ≡ ok (str "7", in_flight)
unfolding start_tool_call insert
started = refl

on_progress-start_stop_example :
    ((str "7" ≡ half.progress_token)
      × Relays keep
          (str "peer")
          (record { progress_token = str "client"; progress = half.progress })
          none
          (on_progress keep in_flight half)
      × (on_progress keep (stop_tracking_tool_call (str "7") in_flight) half ≡ none))
    ⊎ ((¬ (str "7" ≡ half.progress_token))
        × (on_progress keep in_flight half ≡ on_progress keep [] half)
        × (on_progress keep (stop_tracking_tool_call (str "7") in_flight) half
            ≡ on_progress keep [] half))
on_progress-start_stop_example =
    on_progress-start_stop keep [] (str "7") (str "client") (str "peer") none half in_flight started
