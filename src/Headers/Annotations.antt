-- ===== src/Headers/Annotations.antt =====
-- mcp_standard_headers.rs: the `x-mcp-header` annotations of a tool's input schema. An error holds the
-- property's path, not the path of the schema, which only its text shows.
pub mod Unique
use contextforge_data_plane.Prelude.{
  ℕ, Str, str, str_eq, mem_str, Bool, true, false, ◌||◌, not, List, [], ◌∷◌, ◌++◌, Option, none,
  some, if◌then◌else◌, ◌==◌, length, all, is_ascii_alphanumeric, lowercase, Result, ok, err, ◌>>=◌,
  ◌>>◌, ok_or,
}
use contextforge_data_plane.Json.{
  Value, string, array, object, Items, nil, cons, Fields, end, field, get,
}
use contextforge_data_plane.Headers.{HttpCrates}

pub data ParameterType : Type 0 where
  boolean_type : ParameterType
  integer_type : ParameterType
  string_type : ParameterType

pub record ParamHeaderAnnotation : Type 0 where
  pub header_name : Str
  pub header_name_display : Str
  pub parameter_type : ParameterType
  pub property_path : List Str

pub data AnnotationError : Type 0 where
  unreachable : AnnotationError
  not_a_string : List Str → AnnotationError
  empty_header : List Str → AnnotationError
  not_a_token : List Str → Str → AnnotationError
  duplicate_header : List Str → Str → AnnotationError
  wrong_type : List Str → AnnotationError
  invalid_header_name : List Str → Str → AnnotationError

-- What the traversal has collected: the lower-cased headers it has seen, and the annotations.
pub record Visit : Type 0 where
  pub seen_headers : List Str
  pub annotations : List ParamHeaderAnnotation

unfoldable pub is_tchar : ℕ → Bool
is_tchar b =
    is_ascii_alphanumeric b
    || b == b'!'
    || b == b'#'
    || b == b'$'
    || b == b'%'
    || b == b'&'
    || b == b'\''
    || b == b'*'
    || b == b'+'
    || b == b'-'
    || b == b'.'
    || b == b'^'
    || b == b'_'
    || b == b'`'
    || b == b'|'
    || b == b'~'

abbrev pub parameter_type_of : Option Value → Option ParameterType
parameter_type_of (some (string s)) =
    if str_eq s (str "boolean")
    then some boolean_type
    else if str_eq s (str "integer")
    then some integer_type
    else if str_eq s (str "string")
    then some string_type
    else none
parameter_type_of _ = none

abbrev pub header_key : Str
header_key = str "x-mcp-header"

abbrev pub Rejection : Type 0
Rejection = Result AnnotationError Unit

-- `reject_unreachable_annotations`.
unfoldable mutual
  pub reject_unreachable : Value → Rejection
  reject_unreachable (object fields) = elim (get header_key fields) [
    | some _ ↦ err unreachable
    | none ↦ reject_fields fields
  ]
  reject_unreachable (array values) = reject_items values
  reject_unreachable _ = ok tt

  pub reject_items : Items → Rejection
  reject_items nil = ok tt
  reject_items (cons v values) = reject_unreachable v >> reject_items values

  pub reject_fields : Fields → Rejection
  reject_fields end = ok tt
  reject_fields (field k v fields) = reject_unreachable v >> reject_fields fields

module _ (http : HttpCrates) where
  -- The first part of `visit_schema`: the annotation of one schema, when it has one.
  unfoldable pub add_annotation :
      List Str → Str → Option Value → Visit → Result AnnotationError Visit
  add_annotation path header schema_type visit = do
    parameter_type ← ok_or (wrong_type path) (parameter_type_of schema_type)
    let display = http.constants.mcp_param_prefix ++ header
    header_name ← ok_or (invalid_header_name path display) (http.name_from_bytes display)
    ok (record {
      seen_headers = visit.seen_headers ++ lowercase header ∷ [];
      annotations =
          visit.annotations
          ++ (record {
            header_name = header_name;
            header_name_display = display;
            parameter_type = parameter_type;
            property_path = path;
          })
            ∷ [];
    })

  unfoldable pub annotate_header :
      List Str → Str → Option Value → Visit → Result AnnotationError Visit
  annotate_header path header schema_type visit =
      if length header == 0
      then err (empty_header path)
      else if not (all is_tchar header)
      then err (not_a_token path header)
      else if mem_str (lowercase header) visit.seen_headers
      then err (duplicate_header path header)
      else add_annotation path header schema_type visit

  unfoldable pub annotate_raw : List Str → Value → Fields → Visit → Result AnnotationError Visit
  annotate_raw path (string header) schema visit =
      annotate_header path header (get (str "type") schema) visit
  annotate_raw path _ schema visit = err (not_a_string path)

  unfoldable pub annotate : Option (List Str) → Fields → Visit → Result AnnotationError Visit
  annotate path schema visit = elim (get header_key schema) [
    | none ↦ ok visit
    | some raw_header ↦ elim path [
      | none ↦ err unreachable
      | some p ↦ annotate_raw p raw_header schema visit
    ]
  ]

  abbrev pub extend_path : Option (List Str) → Str → List Str
  extend_path none property = property ∷ []
  extend_path (some path) property = path ++ property ∷ []

  -- The loop of `visit_schema`, and the bodies of its branches.
  unfoldable mutual
    pub visit_keywords : Option (List Str) → Fields → Visit → Result AnnotationError Visit
    visit_keywords path end visit = ok visit
    visit_keywords path (field keyword v schema) visit = do
      visit ← elim (str_eq keyword (str "properties")) [
        | true ↦ visit_properties path v visit
        | false ↦ if str_eq keyword header_key then ok visit else (reject_unreachable v >> ok visit)
      ]
      visit_keywords path schema visit

    pub visit_properties : Option (List Str) → Value → Visit → Result AnnotationError Visit
    visit_properties path (object properties) visit = visit_each path properties visit
    visit_properties path v visit = reject_unreachable v >> ok visit

    pub visit_each : Option (List Str) → Fields → Visit → Result AnnotationError Visit
    visit_each path end visit = ok visit
    visit_each path (field property v properties) visit = do
      visit ← visit_property (extend_path path property) v visit
      visit_each path properties visit

    pub visit_property : List Str → Value → Visit → Result AnnotationError Visit
    visit_property path (object schema) visit = do
      visit ← annotate (some path) schema visit
      visit_keywords (some path) schema visit
    visit_property path v visit = reject_unreachable v >> ok visit

  unfoldable pub visit_schema : Option (List Str) → Fields → Visit → Result AnnotationError Visit
  visit_schema path schema visit = do
    visit ← annotate path schema visit
    visit_keywords path schema visit

  unfoldable pub param_header_annotations :
      Fields → Result AnnotationError (List ParamHeaderAnnotation)
  param_header_annotations schema = do
    visit ← visit_schema none schema (record { seen_headers = []; annotations = [] })
    ok visit.annotations
