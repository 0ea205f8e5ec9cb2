-- ===== src/Headers/Params.antt =====
-- mcp_standard_headers.rs: the check of parameter headers against the arguments of a tool call. A header
-- value is its bytes. An error's text is not modelled, only which error it is.
pub mod Agreement
use contextforge_data_plane.Prelude.{
  ℕ, zero, suc, ◌≤◌, Str, str, str_eq, Bool, true, false, ◌&&◌, ◌||◌, not, List, [], ◌∷◌, ◌++◌,
  Option, none, some, if◌then◌else◌, ◌==◌, ltb, leb, length, take, drop, ◌-◌, any, all, between,
  strip_prefix, starts_with_char, ends_with_char, Result, ok, err, ◌>>=◌, ◌>>◌, ok_or,
}
use contextforge_data_plane.Prelude.Utf8.{is_utf8}
use contextforge_data_plane.Json.{
  Value, null, bool, number, string, array, object, Fields, get, as_object, Number, pos_int,
  neg_int, float,
}
use contextforge_data_plane.Headers.{HttpCrates, HeaderMap}
use contextforge_data_plane.Headers.Integer.{
  ℤ, pos, negsuc, max_safe_integer, parse_integer_header_value,
}
use contextforge_data_plane.Headers.Annotations.{
  AnnotationError, ParameterType, boolean_type, integer_type, string_type, ParamHeaderAnnotation,
  param_header_annotations,
}

pub data ParamError : Type 0 where
  bad_schema : AnnotationError → ParamError
  unexpected_header : ParamHeaderAnnotation → ParamError
  missing_header : ParamHeaderAnnotation → ParamError
  wrong_body_value : ParamHeaderAnnotation → ParamError
  not_utf8 : ParamError
  invalid_base64 : ParamError
  decoded_not_utf8 : ParamError
  surrounding_whitespace : ParamError
  needs_base64 : ParamError
  mismatch : Str → ParamError

abbrev pub Check : Type 0
Check = Result ParamError Unit

pub data ParameterValue : Type 0 where
  boolean_value : Bool → ParameterValue
  integer_value : ℤ → ParameterValue
  string_value : Str → ParameterValue

-- `HeaderMap::get_all`.
unfoldable pub get_all : Str → HeaderMap → List Str
get_all name [] = []
get_all name ((n, v) ∷ headers) =
    let rest = get_all name headers in if str_eq n name then v ∷ rest else rest

unfoldable pub descend : List Str → Value → Option Value
descend [] v = some v
descend (property ∷ rest) v = elim (as_object v) [
  | none ↦ none
  | some fields ↦ elim (get property fields) [ none ↦ none | some w ↦ descend rest w ]
]

unfoldable pub value_at_property_path : Option Fields → List Str → Option Value
value_at_property_path arguments [] = none
value_at_property_path none (first ∷ rest) = none
value_at_property_path (some fields) (first ∷ rest) = elim (get first fields) [
  | none ↦ none
  | some v ↦ descend rest v
]

unfoldable pub not_null : Option Value → Option Value
not_null (some null) = none
not_null v = v

-- `as_i64`, or what the number's text reads as, when that is a safe integer.
abbrev safe : ℤ → Bool
safe (pos n) = leb n max_safe_integer
safe (negsuc n) = leb (suc n) max_safe_integer

abbrev number_value : Number → Option ℤ
number_value (pos_int n) = some (pos n)
number_value (neg_int n) = some (negsuc n)
number_value (float text) = parse_integer_header_value text

unfoldable pub parameter_value : Value → ParameterType → Option ParameterValue
parameter_value (bool b) boolean_type = some (boolean_value b)
parameter_value (string s) string_type = some (string_value s)
parameter_value (number n) integer_type = elim (number_value n) [
  | none ↦ none
  | some z ↦ if safe z then some (integer_value z) else none
]
parameter_value _ _ = none

abbrev int_eq : ℤ → ℤ → Bool
int_eq (pos a) (pos b) = a == b
int_eq (negsuc a) (negsuc b) = a == b
int_eq _ _ = false

abbrev bool_text : Bool → Str
bool_text true = str "true"
bool_text false = str "false"

unfoldable pub parameter_values_match : Str → ParameterValue → Bool
parameter_values_match header (boolean_value b) = str_eq header (bool_text b)
parameter_values_match header (string_value s) = str_eq header s
parameter_values_match header (integer_value z) = elim (parse_integer_header_value header) [
  | none ↦ false
  | some h ↦ int_eq h z
]

-- `str::strip_suffix`.
unfoldable pub strip_suffix : Str → Str → Option Str
strip_suffix suffix s =
    let i = length s - length suffix in
    if leb (length suffix) (length s) && str_eq (drop i s) suffix then some (take i s) else none

abbrev is_space : ℕ → Bool
is_space b = b == b' ' || b == 9

abbrev plain : Str → Result ParamError Str
plain raw =
    if starts_with_char b' ' raw
      || starts_with_char 9 raw
      || ends_with_char b' ' raw
      || ends_with_char 9 raw
    then err surrounding_whitespace
    else if any (λ b. not (b == 9 || between 0x20 0x7e b)) raw
    then err needs_base64
    else ok raw

module _ (http : HttpCrates) where
  abbrev base64_inner : Str → Option Str
  base64_inner raw = elim (strip_prefix http.constants.base64_prefix raw) [
    | none ↦ none
    | some inner ↦ strip_suffix http.constants.base64_suffix inner
  ]

  unfoldable pub decode_header_value : Str → Result ParamError Str
  unfolding strip_suffix
  decode_header_value raw = if not (is_utf8 raw) then err not_utf8 else (elim (base64_inner raw) [
    | none ↦ plain raw
    | some inner ↦ elim (http.base64_decode inner) [
      | none ↦ err invalid_base64
      | some decoded ↦ if is_utf8 decoded then ok decoded else err decoded_not_utf8
    ]
  ])

  -- The loop over the values of one header.
  unfoldable pub check_values : ParameterValue → List Str → Check
  check_values expected [] = ok tt
  check_values expected (raw ∷ values) = do
    decoded ← decode_header_value raw
    if parameter_values_match decoded expected
        then check_values expected values
        else err (mismatch decoded)

  -- The four cases of a header and a body value.
  unfoldable pub check_pair : ParamHeaderAnnotation → List Str → Option Value → Check
  check_pair annotation [] none = ok tt
  check_pair annotation (_ ∷ _) none = err (unexpected_header annotation)
  check_pair annotation [] (some _) = err (missing_header annotation)
  check_pair annotation (first ∷ values) (some body) = do
    expected ← ok_or (wrong_body_value annotation) (parameter_value body annotation.parameter_type)
    check_values expected (first ∷ values)

  unfoldable pub check_annotation : HeaderMap → Option Fields → ParamHeaderAnnotation → Check
  check_annotation headers arguments annotation =
      check_pair annotation (get_all annotation.header_name headers)
        (not_null (value_at_property_path arguments annotation.property_path))

  unfoldable pub check_annotations : HeaderMap → Option Fields → List ParamHeaderAnnotation → Check
  check_annotations headers arguments [] = ok tt
  check_annotations headers arguments (annotation ∷ annotations) =
      check_annotation headers arguments annotation
      >> check_annotations headers arguments annotations

  abbrev of_schema_error {ℓ} : {A : Type ℓ} → Result AnnotationError A → Result ParamError A
  of_schema_error (ok a) = ok a
  of_schema_error (err e) = err (bad_schema e)

  unfoldable pub validate_tool_params : HeaderMap → Option Fields → Fields → Check
  validate_tool_params headers arguments input_schema = do
    annotations ← of_schema_error (param_header_annotations http input_schema)
    check_annotations headers arguments annotations
