-- ===== src/Headers/Tests.antt =====
-- Runs of the header code, and the instances of its theorems.
use contextforge_data_plane.Prelude.{
  ◌≤◌, str, ◌≡◌, refl, ◌↔◌, true, List, [], ◌∷◌, none, some, All, arith, ok,
}
use contextforge_data_plane.Prelude.Map.{lookup}
use contextforge_data_plane.Json.{string, Fields, end, field, object}
use contextforge_data_plane.UserStore.{BackendMcpGateway}
use contextforge_data_plane.Headers.{HeaderConstants, HeaderMap, HttpCrates}
use contextforge_data_plane.Headers.Integer.Bounds.{IsSafe, parse_integer_header_value-IsSafe}
use contextforge_data_plane.Headers.Integer.{negsuc, parse_integer_header_value}
use contextforge_data_plane.Headers.Limits.{StandardHeaderLimits, exceeded_limits}
use contextforge_data_plane.Headers.Limits.Laws.{
  limited_count, limited_bytes, Fits, exceeded_limits-eq-none_iff,
}
use contextforge_data_plane.Headers.Backend.{is_protected_header, apply_header_config}
use contextforge_data_plane.Headers.Backend.Protected.{last_param, apply_header_config-protected}
use contextforge_data_plane.Headers.Annotations.{ParamHeaderAnnotation, param_header_annotations}
use contextforge_data_plane.Prelude.{Str}
use contextforge_data_plane.Headers.Annotations.{string_type}
use contextforge_data_plane.Headers.Annotations.Unique.{
  Distinct, AllNames, param_header_annotations-AllNames,
}
use contextforge_data_plane.Headers.Params.{validate_tool_params}
use contextforge_data_plane.Headers.Params.Agreement.{AgreesIn, validate_tool_params_iff}
use contextforge_data_plane.Headers.{is_computed, is_exact, is_param}
use contextforge_data_plane.Prelude.{eq_ignore_ascii_case, is_ascii_digit}
use contextforge_data_plane.Headers.Annotations.{
  add_annotation, annotate, annotate_header, annotate_raw, is_tchar, reject_unreachable,
  visit_keywords, visit_schema,
}
use contextforge_data_plane.Json.{get}
use contextforge_data_plane.Prelude.{is_ascii_alphanumeric, mem_str, str_eq}

abbrev constants : HeaderConstants
constants = record {
  mcp_method = str "mcp-method";
  mcp_name = str "mcp-name";
  mcp_protocol_version = str "mcp-protocol-version";
  session_id = str "mcp-session-id";
  mcp_param_prefix = str "mcp-param-";
  base64_prefix = str "=?base64?";
  base64_suffix = str "?=";
}

abbrev http : HttpCrates
http = record {
  constants = constants;
  name_from_bytes = λ name. some name;
  value_from_str = λ value. some value;
  base64_decode = λ text. none;
}

abbrev request_headers : HeaderMap
request_headers =
    (str "mcp-param-region", str "eu")
    ∷ (str "accept", str "text/html")
    ∷ (str "x-trace", str "1")
    ∷ []

abbrev limits : StandardHeaderLimits
limits = record { count = 1; value_bytes = 2; total_bytes = 18 }

exceeded_limits-eq-none_iff_example : (exceeded_limits constants request_headers limits ≡ none) ↔ (
    (limited_count constants request_headers ≤ limits.count)
    × Fits constants limits.value_bytes request_headers
    × (limited_bytes constants request_headers ≤ limits.total_bytes))
exceeded_limits-eq-none_iff_example =
    exceeded_limits-eq-none_iff constants request_headers limits (omega arith) (omega arith)

abbrev backend : BackendMcpGateway
backend = record {
  name = str "b";
  url = str "https://b/mcp";
  mcp_protocol_version = str "2026-07-28";
  passthrough_headers = str "accept" ∷ str "x-trace" ∷ [];
  add_headers = (str "host", str "evil") ∷ (str "mcp-param-region", str "us") ∷ [];
  remove_headers = str "mcp-param-region" ∷ [];
  completion = [];
  tool_schemas = [];
}

region_protected : is_protected_header constants (str "mcp-param-region") ≡ true
unfolding is_protected_header is_exact eq_ignore_ascii_case str is_computed is_param
region_protected = refl

apply_header_config-protected_example :
    lookup (str "mcp-param-region") (
      apply_header_config constants http.name_from_bytes http.value_from_str [] backend
        (some request_headers))
    ≡ last_param constants http.name_from_bytes http.value_from_str
        (str "mcp-param-region")
        request_headers
        (lookup (str "mcp-param-region") [])
apply_header_config-protected_example =
    apply_header_config-protected constants http.name_from_bytes http.value_from_str [] backend
      (some request_headers) (str "mcp-param-region") region_protected

abbrev schema : Fields
schema =
    field (str "properties")
      (object (
        field (str "region")
          (object (
            field (str "type") (string (str "string"))
              (field (str "x-mcp-header") (string (str "Region")) end)))
          end))
      end

abbrev arguments : Fields
arguments = field (str "region") (string (str "eu")) end

validate_tool_params-iff_example :
    (validate_tool_params http request_headers (some arguments) schema ≡ ok tt) ↔ (
      (annotations : List ParamHeaderAnnotation) × (param_header_annotations http schema
        ≡ ok annotations)
      × All (AgreesIn http request_headers (some arguments)) annotations)
validate_tool_params-iff_example =
    validate_tool_params_iff http request_headers (some arguments) schema

abbrev region : ParamHeaderAnnotation
region = record {
  header_name = str "mcp-param-Region";
  header_name_display = str "mcp-param-Region";
  parameter_type = string_type;
  property_path = str "region" ∷ [];
}

region_annotated : param_header_annotations http schema ≡ ok (region ∷ [])
unfolding param_header_annotations visit_schema annotate get str_eq str visit_keywords annotate_raw
    annotate_header is_tchar is_ascii_alphanumeric mem_str add_annotation reject_unreachable
region_annotated = refl

param_header_annotations-AllNames_example :
    (lowers : List Str) × Distinct lowers × AllNames http lowers (region ∷ [])
param_header_annotations-AllNames_example =
    param_header_annotations-AllNames http schema (region ∷ []) region_annotated

exponent_form : parse_integer_header_value (str "-1.20e1") ≡ some (negsuc 11)
unfolding parse_integer_header_value str is_ascii_digit
exponent_form = refl

not_an_integer : parse_integer_header_value (str "1.5") ≡ none
unfolding parse_integer_header_value str is_ascii_digit
not_an_integer = refl

parse_integer_header_value-IsSafe_example : IsSafe (negsuc 11)
unfolding parse_integer_header_value str is_ascii_digit
parse_integer_header_value-IsSafe_example =
    parse_integer_header_value-IsSafe (str "-1.20e1") {i = negsuc 11} refl
