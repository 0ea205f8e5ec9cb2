-- ===== src/UserStore.antt =====
-- crates/contextforge-data-plane-apis/src/user_store.rs: what a user's configuration holds. A URL and a
-- protocol version are the texts they print as.
use contextforge_data_plane.Prelude.{Str, List}
use contextforge_data_plane.Prelude.Map.{Map}
use contextforge_data_plane.Json.{Fields}

pub record BackendMcpGateway : Type 0 where
  pub name : Str
  pub url : Str
  pub mcp_protocol_version : Str
  pub passthrough_headers : List Str
  pub add_headers : Map Str
  pub remove_headers : List Str
  pub completion : Map Str
  pub tool_schemas : Map Fields

pub record ServiceRoute : Type 0 where
  pub backend_name : Str
  pub upstream_name : Str

pub record VirtualHost : Type 0 where
  pub backends : Map BackendMcpGateway
  pub tools : Map ServiceRoute
  pub resources : Map ServiceRoute
  pub resource_templates : Map ServiceRoute
  pub prompts : Map ServiceRoute

pub record UserConfig : Type 0 where
  pub virtual_hosts : Map VirtualHost
