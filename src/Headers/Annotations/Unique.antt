-- ===== src/Headers/Annotations/Unique.antt =====
-- The headers of a schema's annotations.
use contextforge_data_plane.Prelude.{
  Str, str, str_eq, str_eq_iff, mem_str, ◌≡◌, refl, subst, Bool, true, false, Bool-cases, List, [],
  ◌∷◌, ◌++◌, Option, none, some, Option-cases, inl, inr, Result, ok, err, ◌>>=◌, ◌>>◌, lowercase,
  length, ◌==◌, all, arith, if◌then◌else◌,
}
use contextforge_data_plane.Json.{
  Value, string, array, object, null, bool, number, Fields, end, field, get,
}
use contextforge_data_plane.Headers.{HttpCrates}
use contextforge_data_plane.Headers.Annotations.{
  Visit, ParamHeaderAnnotation, AnnotationError, annotate_header, add_annotation, annotate_raw,
  annotate, visit_keywords, visit_properties, visit_each, visit_property, visit_schema,
  param_header_annotations, is_tchar, parameter_type_of, header_key, reject_unreachable,
  extend_path,
}

-- No text stands twice.
abbrev pub Distinct : List Str → Type 0
Distinct [] = Unit
Distinct (s ∷ ss) = (mem_str s ss ≡ false) × Distinct ss

mem_str-append :
    (s : Str) (ss ts : List Str)
    → mem_str s ss ≡ false
    → mem_str s ts ≡ false
    → mem_str s (ss ++ ts) ≡ false
unfolding mem_str
mem_str-append s [] ts h k = k
mem_str-append s (u ∷ us) ts h k = let ih = mem_str-append s us ts in ground arith

Distinct-append_one :
    (ss : List Str) (s : Str) → Distinct ss → mem_str s ss ≡ false → Distinct (ss ++ s ∷ [])
unfolding mem_str
Distinct-append_one [] s h k = (refl, tt)
Distinct-append_one (u ∷ us) s h k = (
  mem_str-append u us (s ∷ []) h.0 (ground (arith, str_eq_iff u s, str_eq_iff s u)),
  Distinct-append_one us s h.1 (ground arith),
)

module _ (http : HttpCrates) where
  -- An annotation is of a header that is a token, under its prefixed name.
  abbrev pub Names : Str → ParamHeaderAnnotation → Type 0
  Names lower annotation =
      (header : Str) × (annotation.header_name_display ≡ http.constants.mcp_param_prefix ++ header)
      × (lowercase header ≡ lower)
      × (all is_tchar header ≡ true)
      × (http.name_from_bytes annotation.header_name_display ≡ some annotation.header_name)

  abbrev pub AllNames : List Str → List ParamHeaderAnnotation → Type 0
  AllNames [] [] = Unit
  AllNames (lower ∷ lowers) (a ∷ rest) = Names lower a × AllNames lowers rest
  AllNames _ _ = ⊥

  AllNames-append_one :
      (lowers : List Str) (annotations : List ParamHeaderAnnotation) (lower : Str)
      (a : ParamHeaderAnnotation)
      → AllNames lowers annotations
      → Names lower a
      → AllNames (lowers ++ lower ∷ []) (annotations ++ a ∷ [])
  AllNames-append_one [] [] lower a h k = (k, tt)
  AllNames-append_one (l ∷ ls) (b ∷ bs) lower a h k = (h.0, AllNames-append_one ls bs lower a h.1 k)
  AllNames-append_one [] (b ∷ bs) lower a h k = elim h [ ]
  AllNames-append_one (l ∷ ls) [] lower a h k = elim h [ ]

  abbrev pub IsUnique : Visit → Type 0
  IsUnique visit = Distinct visit.seen_headers × AllNames visit.seen_headers visit.annotations

  abbrev Kept : Result AnnotationError Visit → Type 0
  Kept (ok visit) = IsUnique visit
  Kept (err _) = Unit

  record Keeps (result : Result AnnotationError Visit) : Type 0 where
    kept : Kept result

  ok-Keeps : {visit : Visit} → IsUnique visit → Keeps (ok visit)
  ok-Keeps h = record { kept = h }

  err-Keeps : {e : AnnotationError} → Keeps (err e)
  err-Keeps = record { kept = tt }

  then-Keeps :
      (m : Result AnnotationError Visit) (f : Visit → Result AnnotationError Visit)
      → Keeps m
      → ((visit : Visit) → IsUnique visit → Keeps (f visit))
      → Keeps (m >>= f)
  then-Keeps (ok visit) f h g = g visit h.kept
  then-Keeps (err e) f h g = err-Keeps

  checked-Keeps :
      {A : Type 0} (m : Result AnnotationError A) (f : A → Result AnnotationError Visit)
      → ((a : A) → m ≡ ok a → Keeps (f a))
      → Keeps (m >>= f)
  checked-Keeps (ok a) f g = g a refl
  checked-Keeps (err e) f g = err-Keeps

  if-Keeps :
      (b : Bool) (m n : Result AnnotationError Visit)
      → (b ≡ true → Keeps m)
      → (b ≡ false → Keeps n)
      → Keeps (if b then m else n)
  if-Keeps true m n h k = h refl
  if-Keeps false m n h k = k refl

  add_annotation-Keeps :
      (path : List Str) (header : Str) (schema_type : Option Value) (visit : Visit)
      → IsUnique visit
      → all is_tchar header ≡ true
      → mem_str (lowercase header) visit.seen_headers ≡ false
      → Keeps (add_annotation http path header schema_type visit)
  unfolding add_annotation
  add_annotation-Keeps path header schema_type visit (d, n) token new =
      elim (Option-cases (parameter_type_of schema_type)) [
        | inl e ↦ rw (add_annotation, e) err-Keeps
        | inr (parameter_type, e) ↦
            elim (Option-cases (http.name_from_bytes (http.constants.mcp_param_prefix ++ header))) [
              | inl f ↦ rw (add_annotation, e, f) err-Keeps
              | inr (header_name, f) ↦
                  rw (add_annotation, e, f)
                    (ok-Keeps (
                      Distinct-append_one visit.seen_headers (lowercase header) d new,
                      AllNames-append_one visit.seen_headers visit.annotations (lowercase header) _
                          n (header, refl, refl, token, f),
                    ))
            ]
      ]

  annotate_header-Keeps :
      (path : List Str) (header : Str) (schema_type : Option Value) (visit : Visit)
      → IsUnique visit
      → Keeps (annotate_header http path header schema_type visit)
  unfolding annotate_header
  annotate_header-Keeps path header schema_type visit (d, n) =
      elim (Bool-cases (length header == 0)) [
        | inl e ↦ rw (annotate_header, e) err-Keeps
        | inr e ↦ elim (Bool-cases (all is_tchar header)) [
          | inr f ↦ rw (annotate_header, e, f) err-Keeps
          | inl f ↦ elim (Bool-cases (mem_str (lowercase header) visit.seen_headers)) [
            | inl g ↦ rw (annotate_header, e, f, g) err-Keeps
            | inr g ↦
                rw (annotate_header, e, f, g)
                  (add_annotation-Keeps path header schema_type visit (d, n) f g)
          ]
        ]
      ]

  raw-Keeps :
      (path : List Str) (raw : Value) (schema : Fields) (visit : Visit)
      → IsUnique visit
      → Keeps (annotate_raw http path raw schema visit)
  unfolding annotate_raw
  raw-Keeps path (string header) schema visit h = annotate_header-Keeps path header _ visit h
  raw-Keeps path null schema visit h = err-Keeps
  raw-Keeps path (bool _) schema visit h = err-Keeps
  raw-Keeps path (number _) schema visit h = err-Keeps
  raw-Keeps path (array _) schema visit h = err-Keeps
  raw-Keeps path (object _) schema visit h = err-Keeps

  annotate-Keeps :
      (path : Option (List Str)) (schema : Fields) (visit : Visit)
      → IsUnique visit
      → Keeps (annotate http path schema visit)
  unfolding annotate
  annotate-Keeps path schema visit h = elim (Option-cases (get header_key schema)) [
    | inl e ↦ rw (annotate, e) (ok-Keeps h)
    | inr (raw, e) ↦ elim (Option-cases path) [
      | inl f ↦ rw (annotate, e, f) err-Keeps
      | inr (p, f) ↦ rw (annotate, e, f) (raw-Keeps p raw schema visit h)
    ]
  ]

  rejected-Keeps :
      (v : Value) (visit : Visit) → IsUnique visit → Keeps (reject_unreachable v >> ok visit)
  rejected-Keeps v visit h = checked-Keeps (reject_unreachable v) _ (λ _ _. ok-Keeps h)

  branch-Keeps :
      (b : Bool) (m n : Result AnnotationError Visit)
      → Keeps m
      → Keeps n
      → Keeps (elim b [ true ↦ m | false ↦ n ])
  branch-Keeps true m n h k = h
  branch-Keeps false m n h k = k

  mutual
    unfolding visit_keywords

    keywords-Keeps :
        (path : Option (List Str)) (schema : Fields) (visit : Visit)
        → IsUnique visit
        → Keeps (visit_keywords http path schema visit)
    keywords-Keeps path end visit h = ok-Keeps h
    keywords-Keeps path (field keyword v schema) visit h =
        then-Keeps _ _
          (branch-Keeps (str_eq keyword (str "properties")) _ _ (properties-Keeps path v visit h)
            (if-Keeps _ _ _ (λ _. ok-Keeps h) (λ _. rejected-Keeps v visit h)))
          (λ next k. keywords-Keeps path schema next k)

    properties-Keeps :
        (path : Option (List Str)) (v : Value) (visit : Visit)
        → IsUnique visit
        → Keeps (visit_properties http path v visit)
    properties-Keeps path (object properties) visit h = each-Keeps path properties visit h
    properties-Keeps path null visit h = rejected-Keeps null visit h
    properties-Keeps path (bool b) visit h = rejected-Keeps (bool b) visit h
    properties-Keeps path (number n) visit h = rejected-Keeps (number n) visit h
    properties-Keeps path (string s) visit h = rejected-Keeps (string s) visit h
    properties-Keeps path (array vs) visit h = rejected-Keeps (array vs) visit h

    each-Keeps :
        (path : Option (List Str)) (properties : Fields) (visit : Visit)
        → IsUnique visit
        → Keeps (visit_each http path properties visit)
    each-Keeps path end visit h = ok-Keeps h
    each-Keeps path (field property v properties) visit h =
        then-Keeps _ _ (property-Keeps (extend_path http path property) v visit h)
          (λ next k. each-Keeps path properties next k)

    property-Keeps :
        (path : List Str) (v : Value) (visit : Visit)
        → IsUnique visit
        → Keeps (visit_property http path v visit)
    property-Keeps path (object schema) visit h =
        then-Keeps _ _ (annotate-Keeps (some path) schema visit h)
          (λ next k. keywords-Keeps (some path) schema next k)
    property-Keeps path null visit h = rejected-Keeps null visit h
    property-Keeps path (bool b) visit h = rejected-Keeps (bool b) visit h
    property-Keeps path (number n) visit h = rejected-Keeps (number n) visit h
    property-Keeps path (string s) visit h = rejected-Keeps (string s) visit h
    property-Keeps path (array vs) visit h = rejected-Keeps (array vs) visit h

  visited-AllNames :
      (m : Result AnnotationError Visit) (annotations : List ParamHeaderAnnotation)
      → Keeps m
      → (m >>= λ visit. ok visit.annotations) ≡ ok annotations
      → (lowers : List Str) × Distinct lowers × AllNames lowers annotations
  visited-AllNames (ok visit) annotations k h =
      let e : visit.annotations ≡ annotations = cc in
      (visit.seen_headers, k.kept.0, subst (AllNames visit.seen_headers) e k.kept.1)
  visited-AllNames (err e) annotations k h = cc

  -- What a schema's annotations are: when the schema is accepted, there is a list of distinct texts, one
  -- for each annotation, which are the lower-cased headers of the annotations; each such header is an
  -- HTTP token, and the annotation's header name is what the name with its prefix parses to.
  pub param_header_annotations-AllNames :
      (schema : Fields) (annotations : List ParamHeaderAnnotation)
      → param_header_annotations http schema ≡ ok annotations
      → (lowers : List Str) × Distinct lowers × AllNames lowers annotations
  unfolding param_header_annotations visit_schema
  param_header_annotations-AllNames schema annotations h =
      visited-AllNames _ annotations
        (then-Keeps _ _
          (annotate-Keeps none schema (record { seen_headers = []; annotations = [] }) (tt, tt))
          (λ next k. keywords-Keeps none schema next k))
        h
