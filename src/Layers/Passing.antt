-- ===== src/Layers/Passing.antt =====
-- What each layer hands on to the next, when it lets a request through.
use contextforge_data_plane.Prelude.{Str, str, ◌≡◌, refl, none, some}
use contextforge_data_plane.Json.{Value}
use contextforge_data_plane.Headers.Backend.{header}
use contextforge_data_plane.Headers.Limits.{exceeded_limits}
use contextforge_data_plane.Layers.{
  Request, Handler, mcp_header_limits_layer, virtual_host_id_layer, claims_layer, principal_layer,
  user_config_store_layer, virtual_host_config_layer, AppState, app, extract_virtual_host_id,
}

abbrev pub with_id : Request → Str → Request
with_id r id = record {
  path = r.path;
  headers = r.headers;
  claims = r.claims;
  principal = r.principal;
  virtual_host_id = some id;
  user_config = r.user_config;
}

abbrev pub with_claims : Request → Value → Request
with_claims r v = record {
  path = r.path;
  headers = r.headers;
  claims = some v;
  principal = r.principal;
  virtual_host_id = r.virtual_host_id;
  user_config = r.user_config;
}

abbrev pub with_principal : Request → Str → Request
with_principal r v = record {
  path = r.path;
  headers = r.headers;
  claims = r.claims;
  principal = some v;
  virtual_host_id = r.virtual_host_id;
  user_config = r.user_config;
}

module _ (state : AppState) where
  -- The stack from each layer on.
  abbrev pub from_config : Handler → Handler
  from_config service = user_config_store_layer state.get_config (virtual_host_config_layer service)

  abbrev pub from_principal : Handler → Handler
  from_principal service = principal_layer state.extract (from_config service)

  abbrev pub from_claims : Handler → Handler
  from_claims service = claims_layer state.authorize (from_principal service)

  pub app-limits :
      (r : Request)
      → exceeded_limits state.constants r.headers state.limits ≡ none
      → (service : Handler) → app state service r ≡ virtual_host_id_layer (from_claims service) r
  unfolding app mcp_header_limits_layer
  app-limits r e service = rw (app, mcp_header_limits_layer, e) refl

  pub id-passes :
      (r : Request) (id : Str)
      → extract_virtual_host_id r.path ≡ some (some id)
      → (service : Handler)
      → virtual_host_id_layer (from_claims service) r ≡ from_claims service (with_id r id)
  unfolding virtual_host_id_layer
  id-passes r id e service = rw (virtual_host_id_layer, e) refl

  pub claims-pass :
      (r : Request) (token : Str) (claims : Value)
      → header (str "authorization") r.headers ≡ some token
      → state.authorize token ≡ some claims
      → (service : Handler) → from_claims service r ≡ from_principal service (with_claims r claims)
  unfolding claims_layer
  claims-pass r token claims e f service = rw (claims_layer, e, f) refl

  pub principal-passes :
      (r : Request) (claims : Value) (principal : Str)
      → state.extract claims ≡ some principal
      → (service : Handler)
      → from_principal service (with_claims r claims)
        ≡ from_config service (with_principal (with_claims r claims) principal)
  unfolding principal_layer
  principal-passes r claims principal e service = rw (principal_layer, e) refl
