-- ===== src/Headers/Backend.antt =====
-- gateway/mcp_service/initialization.rs: the headers that a backend's configuration adds to an upstream
-- request. `HeaderName::from_bytes` and `HeaderValue::from_str` are the `http` crate's.
pub mod Protected
use contextforge_data_plane.Prelude.{
  Str, str, Bool, ◌||◌, List, [], ◌∷◌, Option, none, some, if◌then◌else◌, any, str_eq,
}
use contextforge_data_plane.Prelude.Map.{Map, insert, remove}
use contextforge_data_plane.UserStore.{BackendMcpGateway}
use contextforge_data_plane.Headers.{HeaderConstants, HeaderMap, is_exact, is_computed, is_param}

abbrev pub protected_names : List Str
protected_names =
    str "host"
    ∷ str "content-length"
    ∷ str "content-type"
    ∷ str "connection"
    ∷ str "keep-alive"
    ∷ str "proxy-authenticate"
    ∷ str "proxy-authorization"
    ∷ str "te"
    ∷ str "trailer"
    ∷ str "trailers"
    ∷ str "transfer-encoding"
    ∷ str "upgrade"
    ∷ str "proxy-connection"
    ∷ str "mcp-session-id"
    ∷ str "accept"
    ∷ str "last-event-id"
    ∷ []

-- `HeaderMap::get`: the first value of a name.
unfoldable pub header : Str → HeaderMap → Option Str
header name [] = none
header name ((n, v) ∷ headers) = if str_eq n name then some v else header name headers

unfoldable pub is_protected_header : HeaderConstants → Str → Bool
is_protected_header constants name =
    any (is_exact name) protected_names || is_computed constants name

module _ (constants : HeaderConstants) (name_from_bytes : Str → Option Str)
    (value_from_str : Str → Option Str) where
  abbrev pub pass_one : Str → HeaderMap → Map Str → Map Str
  pass_one raw downstream headers = elim (name_from_bytes raw) [
    | none ↦ headers
    | some name ↦
        if is_protected_header constants name then headers else (elim (header name downstream) [
          | none ↦ headers
          | some value ↦ insert name value headers
        ])
  ]

  unfoldable pub pass_through : List Str → HeaderMap → Map Str → Map Str
  pass_through [] downstream headers = headers
  pass_through (raw ∷ names) downstream headers =
      pass_through names downstream (pass_one raw downstream headers)

  unfoldable pub forward_params : HeaderMap → Map Str → Map Str
  forward_params [] headers = headers
  forward_params ((name, value) ∷ downstream) headers =
      forward_params downstream
        (if is_param constants name then insert name value headers else headers)

  abbrev pub add_one : Str → Str → Map Str → Map Str
  add_one raw_name raw_value headers = elim (name_from_bytes raw_name) [
    | none ↦ headers
    | some name ↦ elim (value_from_str raw_value) [
      | none ↦ headers
      | some value ↦
          if is_protected_header constants name then headers else insert name value headers
    ]
  ]

  unfoldable pub add : Map Str → Map Str → Map Str
  add [] headers = headers
  add ((raw_name, raw_value) ∷ rest) headers = add rest (add_one raw_name raw_value headers)

  abbrev pub remove_one : Str → Map Str → Map Str
  remove_one raw headers = elim (name_from_bytes raw) [
    | none ↦ headers
    | some name ↦ if is_protected_header constants name then headers else remove name headers
  ]

  unfoldable pub remove_all : List Str → Map Str → Map Str
  remove_all [] headers = headers
  remove_all (raw ∷ names) headers = remove_all names (remove_one raw headers)

  unfoldable pub apply_header_config : Map Str → BackendMcpGateway → Option HeaderMap → Map Str
  apply_header_config headers backend downstream =
      let passed : Map Str = elim downstream [
        | none ↦ headers
        | some d ↦ forward_params d (pass_through backend.passthrough_headers d headers)
      ] in
      remove_all backend.remove_headers (add backend.add_headers passed)
