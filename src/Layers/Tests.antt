-- ===== src/Layers/Tests.antt =====
-- Runs of the layers, and the instances of their theorems.
use contextforge_data_plane.Prelude.{str, ◌≡◌, refl, ◌⊎◌, [], ◌∷◌, ◌++◌, Option, none, some, ok}
use contextforge_data_plane.Json.{string}
use contextforge_data_plane.UserStore.{VirtualHost, UserConfig}
use contextforge_data_plane.Headers.{HeaderConstants}
use contextforge_data_plane.Layers.{
  Request, Response, Handler, AppState, app, extract_virtual_host_id, servers_prefix, mcp_suffix,
}
use contextforge_data_plane.Layers.Paths.{extract_virtual_host_id-servers}
use contextforge_data_plane.Layers.Admission.{IsAdmitted, IsRefused, app-IsAdmitted}
use contextforge_data_plane.Prelude.{str_eq}

abbrev constants : HeaderConstants
constants = record {
  mcp_method = str "mcp-method";
  mcp_name = str "mcp-name";
  mcp_protocol_version = str "mcp-protocol-version";
  session_id = str "mcp-session-id";
  mcp_param_prefix = str "mcp-param-";
  base64_prefix = str "=?base64?";
  base64_suffix = str "?=";
}

abbrev host : VirtualHost
host = record { backends = []; tools = []; resources = []; resource_templates = []; prompts = [] }

abbrev config : UserConfig
config = record { virtual_hosts = (str "vh", host) ∷ [] }

abbrev state : AppState
state = record {
  constants = constants;
  limits = record { count = 32; value_bytes = 8192; total_bytes = 65536 };
  authorize = λ token. some (string token);
  extract = λ claims. some (str "alice");
  get_config = λ principal. ok config;
}

abbrev request : Request
request = record {
  path = str "/servers/vh/mcp";
  headers = (str "authorization", str "Bearer x") ∷ [];
  claims = none;
  principal = none;
  virtual_host_id = none;
  user_config = none;
}

app-IsAdmitted_example :
    ((seen : Request) × IsAdmitted state request seen
      × ((service : Handler) → app state service request ≡ service seen))
    ⊎ ((answer : Option Response) × IsRefused answer
        × ((service : Handler) → app state service request ≡ answer))
app-IsAdmitted_example = app-IsAdmitted state request

extract_virtual_host_id-servers_example :
    extract_virtual_host_id ((servers_prefix ++ str "vh") ++ mcp_suffix) ≡ some (some (str "vh"))
extract_virtual_host_id-servers_example = extract_virtual_host_id-servers (str "vh")

-- The slice from 9 to 8 of a path without the second slash.
servers_mcp_panics : extract_virtual_host_id (str "/servers/mcp") ≡ none
unfolding extract_virtual_host_id str_eq str
servers_mcp_panics = refl

other_path : extract_virtual_host_id (str "/mcp/servers") ≡ some none
unfolding extract_virtual_host_id str_eq str
other_path = refl
