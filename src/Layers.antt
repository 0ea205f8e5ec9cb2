-- ===== src/Layers.antt =====
-- The layers that a request passes before the MCP service (layers/*.rs, errors.rs), and the stack of
-- them that `Gateway::into_router` builds (lib.rs). A handler returns none where the code panics.
pub mod Admission
pub mod Paths
pub mod Passing
mod Tests
use contextforge_data_plane.Prelude.{
  ℕ, ◌-◌, Str, str, Bool, true, false, ◌&&◌, ◌||◌, List, [], ◌∷◌, ◌++◌, Option, none, some,
  if◌then◌else◌, ltb, leb, length, take, drop, str_eq, strip_prefix, Result, ok, err,
}
use contextforge_data_plane.Prelude.Map.{Map, lookup}
use contextforge_data_plane.Json.{Value, get, as_object, as_str}
use contextforge_data_plane.UserStore.{UserConfig, VirtualHost}
use contextforge_data_plane.Headers.{HeaderConstants, HeaderMap}
use contextforge_data_plane.Headers.Backend.{header}
use contextforge_data_plane.Headers.Limits.{StandardHeaderLimits, exceeded_limits}

-- A request: its path, its headers, and the extensions that the layers insert.
pub record Request : Type 0 where
  pub path : Str
  pub headers : HeaderMap
  pub claims : Option Value
  pub principal : Option Str
  pub virtual_host_id : Option Str
  pub user_config : Option UserConfig

pub record Response : Type 0 where
  pub status : ℕ
  pub body : Str

abbrev pub Handler : Type 0
Handler = Request → Option Response

-- errors.rs; the content type of a response is not modelled.
abbrev pub custom_error : ℕ → Str → Option Response
custom_error status message = some (record { status = status; body = message })

abbrev pub unauthorized_response : Str → Option Response
unauthorized_response = custom_error 401

abbrev pub bad_request : Str → Option Response
bad_request = custom_error 400

abbrev pub internal_server_error : Str → Option Response
internal_server_error = custom_error 500

-- `mcp_header_limits_layer`.
unfoldable pub mcp_header_limits_layer : HeaderConstants → StandardHeaderLimits → Handler → Handler
mcp_header_limits_layer constants limits next request =
    elim (exceeded_limits constants request.headers limits) [
      | some _ ↦ custom_error 431 (str "MCP standard header limits exceeded")
      | none ↦ next request
    ]

-- `str::ends_with`, and the slice `&s[from..to]`, which panics when `to` is before `from`.
abbrev pub ends_with : Str → Str → Bool
ends_with suffix s =
    leb (length suffix) (length s) && str_eq (drop (length s - length suffix) s) suffix

abbrev pub starts_with : Str → Str → Bool
starts_with prefix s = str_eq (take (length prefix) s) prefix

abbrev pub slice : ℕ → ℕ → Str → Option Str
slice from to s = if leb from to && leb to (length s) then some (drop from (take to s)) else none

abbrev pub servers_prefix : Str
servers_prefix = str "/servers/"

abbrev pub mcp_suffix : Str
mcp_suffix = str "/mcp"

-- `extract_virtual_host_id`: none where it panics, else what it returns.
unfoldable pub extract_virtual_host_id : Str → Option (Option Str)
extract_virtual_host_id path =
    if starts_with servers_prefix path && ends_with mcp_suffix path
    then (elim (slice (length servers_prefix) (length path - length mcp_suffix) path) [
      | none ↦ none
      | some id ↦ some (some id)
    ])
    else some none

unfoldable pub virtual_host_id_layer : Handler → Handler
virtual_host_id_layer next request = elim (extract_virtual_host_id request.path) [
  | none ↦ none
  | some none ↦ bad_request (str "Problem occured retrieving the configuration")
  | some (some id) ↦ next (record {
    path = request.path;
    headers = request.headers;
    claims = request.claims;
    principal = request.principal;
    virtual_host_id = some id;
    user_config = request.user_config;
  })
]

-- `claims_layer`; the authorization service is the caller's.
unfoldable pub claims_layer : (Str → Option Value) → Handler → Handler
claims_layer authorize next request = elim (header (str "authorization") request.headers) [
  | none ↦ unauthorized_response (str "No header")
  | some authorization ↦ elim (authorize authorization) [
    | none ↦ unauthorized_response (str "Invalid token")
    | some claims ↦ next (record {
      path = request.path;
      headers = request.headers;
      claims = some claims;
      principal = request.principal;
      virtual_host_id = request.virtual_host_id;
      user_config = request.user_config;
    })
  ]
]

-- `PrincipalExtractorMiddleware::call`.
unfoldable pub principal_layer : (Value → Option Str) → Handler → Handler
principal_layer extract next request = elim request.claims [
  | none ↦ unauthorized_response (str "Invalid token. Unable to extract the principal from claims")
  | some claims ↦ elim (extract claims) [
    | none ↦
        unauthorized_response (str "Invalid token. Unable to extract the principal from claims")
    | some principal ↦ next (record {
      path = request.path;
      headers = request.headers;
      claims = request.claims;
      principal = some principal;
      virtual_host_id = request.virtual_host_id;
      user_config = request.user_config;
    })
  ]
]

pub data ConfigStoreError : Type 0 where
  invalid_connection : ConfigStoreError
  no_data_for_key : ConfigStoreError
  data_wrong_format : ConfigStoreError
  data_encoding : ConfigStoreError
  cant_write_data : ConfigStoreError
  invalid_configuration : Str → ConfigStoreError

unfoldable pub user_config_store_layer :
    (Str → Result ConfigStoreError UserConfig) → Handler → Handler
user_config_store_layer get_config next request = elim request.principal [
  | none ↦ bad_request (str "No claims in the token")
  | some principal ↦ elim (get_config principal) [
    | ok user_config ↦ next (record {
      path = request.path;
      headers = request.headers;
      claims = request.claims;
      principal = request.principal;
      virtual_host_id = request.virtual_host_id;
      user_config = some user_config;
    })
    | err no_data_for_key ↦ bad_request (str "Problem occurred retrieving the configuration")
    | err _ ↦ internal_server_error (str "Problem occurred retrieving the configuration")
  ]
]

unfoldable pub virtual_host_config_layer : Handler → Handler
virtual_host_config_layer next request = elim request.virtual_host_id [
  | none ↦ next request
  | some id ↦ elim request.user_config [
    | none ↦ next request
    | some user_config ↦ elim (lookup id user_config.virtual_hosts) [
      | none ↦ custom_error 404 (str "{\"detail\":\"Server not found\"}")
      | some _ ↦ next request
    ]
  ]
]

-- What the stack is built from: the limits, the authorization service, the principal extractor with the
-- key of its principal in the store, and the store.
pub record AppState : Type 0 where
  pub constants : HeaderConstants
  pub limits : StandardHeaderLimits
  pub authorize : Str → Option Value
  pub extract : Value → Option Str
  pub get_config : Str → Result ConfigStoreError UserConfig

-- The layers of `into_router`, the outermost first.
unfoldable pub app : AppState → Handler → Handler
app state service = mcp_header_limits_layer state.constants state.limits (
    virtual_host_id_layer (
      claims_layer state.authorize (
        principal_layer state.extract
          (user_config_store_layer state.get_config (virtual_host_config_layer service)))))

-- `DefaultPrincipalExtractor::extract`: the first of the claims that is there must be a text.
abbrev find_claim : List Str → Value → Option Str
find_claim [] claims = none
find_claim (name ∷ names) claims = elim (as_object claims) [
  | none ↦ none
  | some fields ↦ elim (get name fields) [ none ↦ find_claim names claims | some v ↦ as_str v ]
]

pub record DefaultPrincipal : Type 0 where
  pub user_id : Str
  pub tenant_id : Str

unfoldable pub extract_default : Value → Option DefaultPrincipal
extract_default claims = elim (find_claim (str "sub" ∷ str "user_id" ∷ str "UserId" ∷ []) claims) [
  | none ↦ none
  | some user_id ↦ elim (find_claim (str "tenantId" ∷ str "tenant_id" ∷ []) claims) [
    | none ↦ none
    | some tenant_id ↦ some (record { user_id = user_id; tenant_id = tenant_id })
  ]
]
