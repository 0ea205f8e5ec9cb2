-- ===== src/Layers/Admission.antt =====
-- Which requests reach the MCP service, and with what.
use contextforge_data_plane.Prelude.{
  ℕ, ◌≤◌, Str, str, ◌≡◌, refl, ◌∙◌, ◌⊎◌, inl, inr, Option, none, some, Option-cases, ok,
  Result-cases, arith,
}
use contextforge_data_plane.Prelude.Map.{lookup}
use contextforge_data_plane.Json.{Value}
use contextforge_data_plane.UserStore.{UserConfig, VirtualHost}
use contextforge_data_plane.Headers.Backend.{header}
use contextforge_data_plane.Headers.Limits.{exceeded_limits}
use contextforge_data_plane.Layers.{
  Request, Response, Handler, mcp_header_limits_layer, virtual_host_id_layer, claims_layer,
  principal_layer, user_config_store_layer, virtual_host_config_layer, AppState, app,
  extract_virtual_host_id, no_data_for_key, invalid_connection, data_wrong_format, data_encoding,
  cant_write_data, invalid_configuration, custom_error,
}
use contextforge_data_plane.Layers.Passing.{
  with_id, with_claims, with_principal, from_config, app-limits, id-passes, claims-pass,
  principal-passes,
}

-- The service sees a request with this path and these headers, with the claims that the authorization
-- service gives for its token, the principal of these claims, the stored configuration of that principal
-- and the virtual host of the path, which this configuration has.
pub record IsAdmitted (state : AppState) (request seen : Request) : Type 0 where
  pub same_path : seen.path ≡ request.path
  pub same_headers : seen.headers ≡ request.headers
  pub within_limits : exceeded_limits state.constants request.headers state.limits ≡ none
  pub token : Str
  pub has_token : header (str "authorization") request.headers ≡ some token
  pub claims : Value
  pub authorized : state.authorize token ≡ some claims
  pub has_claims : seen.claims ≡ some claims
  pub principal : Str
  pub extracted : state.extract claims ≡ some principal
  pub has_principal : seen.principal ≡ some principal
  pub config : UserConfig
  pub stored : state.get_config principal ≡ ok config
  pub has_config : seen.user_config ≡ some config
  pub id : Str
  pub in_path : extract_virtual_host_id request.path ≡ some (some id)
  pub has_id : seen.virtual_host_id ≡ some id
  pub host : VirtualHost
  pub configured : lookup id config.virtual_hosts ≡ some host

-- The stack's answer does not depend on the service: it panics, or refuses with a client or server error.
abbrev pub IsRefused : Option Response → Type 0
IsRefused none = Unit
IsRefused (some response) = 400 ≤ response.status

abbrev Outcome : AppState → Request → Type 0
Outcome state request =
    ((seen : Request) × IsAdmitted state request seen
      × ((service : Handler) → app state service request ≡ service seen))
    ⊎ ((answer : Option Response) × IsRefused answer
        × ((service : Handler) → app state service request ≡ answer))

refused :
    (state : AppState) (request : Request) (status : ℕ) (body : Str)
    → 400 ≤ status
    → ((service : Handler) → app state service request ≡ custom_error status body)
    → Outcome state request
refused state request status body h e = inr (custom_error status body, h, e)

-- The second half of the stack, once the principal is known.
app-stored :
    (state : AppState) (request : Request) (id token principal : Str) (claims : Value)
    → exceeded_limits state.constants request.headers state.limits ≡ none
    → extract_virtual_host_id request.path ≡ some (some id)
    → header (str "authorization") request.headers ≡ some token
    → state.authorize token ≡ some claims
    → state.extract claims ≡ some principal
    → Outcome state request
unfolding user_config_store_layer virtual_host_config_layer
app-stored state request id token principal claims e1 e2 e3 e4 e5 =
    let r1 = with_id request id in
    let passed : (service : Handler)
        → app state service request
          ≡ from_config state service (with_principal (with_claims r1 claims) principal) =
      λ service.
        app-limits state request e1 service
        ∙ id-passes state request id e2 service
        ∙ claims-pass state r1 token claims e3 e4 service
        ∙ principal-passes state r1 claims principal e5 service in
    elim (Result-cases (state.get_config principal)) [
      | inr (no_data_for_key, e6) ↦
          refused state request 400 (str "Problem occurred retrieving the configuration")
            (omega arith) (λ service. passed service ∙ (rw (user_config_store_layer, e6) refl))
      | inr (invalid_connection, e6) ↦
          refused state request 500 (str "Problem occurred retrieving the configuration")
            (omega arith) (λ service. passed service ∙ (rw (user_config_store_layer, e6) refl))
      | inr (data_wrong_format, e6) ↦
          refused state request 500 (str "Problem occurred retrieving the configuration")
            (omega arith) (λ service. passed service ∙ (rw (user_config_store_layer, e6) refl))
      | inr (data_encoding, e6) ↦
          refused state request 500 (str "Problem occurred retrieving the configuration")
            (omega arith) (λ service. passed service ∙ (rw (user_config_store_layer, e6) refl))
      | inr (cant_write_data, e6) ↦
          refused state request 500 (str "Problem occurred retrieving the configuration")
            (omega arith) (λ service. passed service ∙ (rw (user_config_store_layer, e6) refl))
      | inr (invalid_configuration _, e6) ↦
          refused state request 500 (str "Problem occurred retrieving the configuration")
            (omega arith) (λ service. passed service ∙ (rw (user_config_store_layer, e6) refl))
      | inl (config, e6) ↦ elim (Option-cases (lookup id config.virtual_hosts)) [
        | inl e7 ↦
            refused state request 404 (str "{\"detail\":\"Server not found\"}") (omega arith)
              (λ service.
                passed service
                ∙ (rw (user_config_store_layer, e6, virtual_host_config_layer, e7) refl))
        | inr (host, e7) ↦ inl (
          record {
            path = request.path;
            headers = request.headers;
            claims = some claims;
            principal = some principal;
            virtual_host_id = some id;
            user_config = some config;
          },
          record {
            same_path = refl;
            same_headers = refl;
            within_limits = e1;
            token = token;
            has_token = e3;
            claims = claims;
            authorized = e4;
            has_claims = refl;
            principal = principal;
            extracted = e5;
            has_principal = refl;
            config = config;
            stored = e6;
            has_config = refl;
            id = id;
            in_path = e2;
            has_id = refl;
            host = host;
            configured = e7;
          },
          (λ service.
              passed service
              ∙ (rw (user_config_store_layer, e6, virtual_host_config_layer, e7) refl)),
        )
      ]
    ]

-- A request reaches the MCP service exactly once, and only admitted: with the claims of its own token,
-- the configuration of their principal, and a virtual host which that configuration has. Any other
-- request is refused with an error status whatever the service does, or its path makes a layer panic.
pub app-IsAdmitted :
    (state : AppState) (request : Request)
    → ((seen : Request) × IsAdmitted state request seen
        × ((service : Handler) → app state service request ≡ service seen))
      ⊎ ((answer : Option Response) × IsRefused answer
          × ((service : Handler) → app state service request ≡ answer))
unfolding app mcp_header_limits_layer virtual_host_id_layer claims_layer principal_layer
app-IsAdmitted state request =
    elim (Option-cases (exceeded_limits state.constants request.headers state.limits)) [
      | inr (usage, e1) ↦
          refused state request 431 (str "MCP standard header limits exceeded") (omega arith)
            (λ service. rw (app, mcp_header_limits_layer, e1) refl)
      | inl e1 ↦ elim (Option-cases (extract_virtual_host_id request.path)) [
        | inl e2 ↦ inr (
          none,
          tt,
          (λ service. app-limits state request e1 service ∙ (rw (virtual_host_id_layer, e2) refl)),
        )
        | inr (none, e2) ↦
            refused state request 400 (str "Problem occured retrieving the configuration")
              (omega arith)
              (λ service.
                app-limits state request e1 service ∙ (rw (virtual_host_id_layer, e2) refl))
        | inr (some id, e2) ↦ elim (Option-cases (header (str "authorization") request.headers)) [
          | inl e3 ↦ refused state request 401 (str "No header") (omega arith) (λ service.
              app-limits state request e1 service
              ∙ id-passes state request id e2 service
              ∙ (rw (claims_layer, e3) refl))
          | inr (token, e3) ↦ elim (Option-cases (state.authorize token)) [
            | inl e4 ↦ refused state request 401 (str "Invalid token") (omega arith) (λ service.
                app-limits state request e1 service
                ∙ id-passes state request id e2 service
                ∙ (rw (claims_layer, e3, e4) refl))
            | inr (claims, e4) ↦ elim (Option-cases (state.extract claims)) [
              | inl e5 ↦
                  refused state request 401
                    (str "Invalid token. Unable to extract the principal from claims") (omega arith)
                    (λ service.
                      app-limits state request e1 service
                      ∙ id-passes state request id e2 service
                      ∙ claims-pass state (with_id request id) token claims e3 e4 service
                      ∙ (rw (principal_layer, e5) refl))
              | inr (principal, e5) ↦
                  app-stored state request id token principal claims e1 e2 e3 e4 e5
            ]
          ]
        ]
      ]
    ]
