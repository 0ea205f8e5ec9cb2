-- ===== src/Headers/Params/Agreement.antt =====
-- When the parameter headers of a tool call are accepted.
use contextforge_data_plane.Prelude.{
  Str, ◌≡◌, ◌≢◌, refl, ◌↔◌, sym, subst, inl, inr, true, List, [], ◌∷◌, Option, none, some, All,
  Result, ok, Result-cases, Bool-cases, Option-cases,
}
use contextforge_data_plane.Prelude.Maybe.{some-inj}
use contextforge_data_plane.Json.{Value, Fields}
use contextforge_data_plane.Headers.{HttpCrates, HeaderMap}
use contextforge_data_plane.Headers.Annotations.{ParamHeaderAnnotation, param_header_annotations}
use contextforge_data_plane.Headers.Params.{
  ParameterValue, get_all, value_at_property_path, not_null, parameter_value,
  parameter_values_match, decode_header_value, check_values, check_pair, check_annotation,
  check_annotations, validate_tool_params,
}

ok-inj : {E A : Type 0} {a b : A} → Path (Result E A) (ok a) (ok b) → a ≡ b
ok-inj h = cc

module _ (http : HttpCrates) where
  -- One header value says what the body says.
  abbrev pub Says : ParameterValue → Str → Type 0
  Says expected raw =
      (decoded : Str) × (decode_header_value http raw ≡ ok decoded)
      × (parameter_values_match decoded expected ≡ true)

  -- A parameter stands in the headers exactly when it stands in the body, and they agree.
  abbrev pub Agrees : List Str → Option Value → ParamHeaderAnnotation → Type 0
  Agrees values none annotation = values ≡ []
  Agrees values (some body) annotation =
      (values ≢ [])
      × ((expected : ParameterValue) × (parameter_value body annotation.parameter_type
            ≡ some expected)
          × All (Says expected) values)

  abbrev pub AgreesIn : HeaderMap → Option Fields → ParamHeaderAnnotation → Type 0
  AgreesIn headers arguments annotation =
      Agrees (get_all annotation.header_name headers)
        (not_null (value_at_property_path arguments annotation.property_path)) annotation

  check_values_iff :
      (expected : ParameterValue) (values : List Str)
      → (check_values http expected values ≡ ok tt) ↔ All (Says expected) values
  unfolding check_values
  check_values_iff expected [] = ((λ _. tt), (λ _. refl))
  check_values_iff expected (raw ∷ values) = elim (Result-cases (decode_header_value http raw)) [
    | inr (x, e) ↦ rw e ((λ h. cc), (λ ((d, f, g), r). cc))
    | inl (decoded, e) ↦ elim (Bool-cases (parameter_values_match decoded expected)) [
      | inl f ↦
          rw (e, f)
            (
              (λ h. ((decoded, refl, f), (check_values_iff expected values).0 h)),
              (λ (_, r). (check_values_iff expected values).1 r),
            )
      | inr f ↦ rw (e, f) ((λ h. cc), (λ ((d, g, k), r). cc))
    ]
  ]

  check_pair_iff :
      (annotation : ParamHeaderAnnotation) (values : List Str) (body : Option Value)
      → (check_pair http annotation values body ≡ ok tt) ↔ Agrees values body annotation
  unfolding check_pair
  check_pair_iff annotation [] none = ((λ _. refl), (λ _. refl))
  check_pair_iff annotation (v ∷ vs) none = ((λ h. cc), (λ h. cc))
  check_pair_iff annotation [] (some body) = ((λ h. cc), (λ h. elim (h.0 refl) [ ]))
  check_pair_iff annotation (v ∷ vs) (some body) =
      elim (Option-cases (parameter_value body annotation.parameter_type)) [
        | inl e ↦ rw e ((λ h. cc), (λ (_, (d, g, k)). cc))
        | inr (expected, e) ↦
            let i = check_values_iff expected (v ∷ vs) in
            rw e (
              (λ h. ((λ k. cc), (expected, refl, i.0 h))),
              (λ (_, (d, g, k)). i.1 (subst (λ x. All (Says x) (v ∷ vs)) (sym (some-inj g)) k)),
            )
      ]

  check_annotation_iff :
      (headers : HeaderMap) (arguments : Option Fields) (annotation : ParamHeaderAnnotation)
      → (check_annotation http headers arguments annotation ≡ ok tt)
        ↔ AgreesIn headers arguments annotation
  unfolding check_annotation
  check_annotation_iff headers arguments annotation = check_pair_iff annotation _ _

  check_annotations_iff :
      (headers : HeaderMap) (arguments : Option Fields) (annotations : List ParamHeaderAnnotation)
      → (check_annotations http headers arguments annotations ≡ ok tt)
        ↔ All (AgreesIn headers arguments) annotations
  unfolding check_annotations
  check_annotations_iff headers arguments [] = ((λ _. tt), (λ _. refl))
  check_annotations_iff headers arguments (a ∷ rest) =
      let b = check_annotation_iff headers arguments a in
      let ih = check_annotations_iff headers arguments rest in
      elim (Result-cases (check_annotation http headers arguments a)) [
        | inl (_, e) ↦ rw e ((λ h. (b.0 e, ih.0 h)), (λ (_, r). ih.1 r))
        | inr (x, e) ↦ rw e ((λ h. cc), (λ (g, r). let k = b.1 g in cc))
      ]

  -- The headers are accepted exactly when the schema's annotations are well formed and each of them
  -- agrees: the header is absent where the argument is absent or null, and otherwise there is a header,
  -- the argument has the annotated type, and every value of the header decodes to the argument.
  pub validate_tool_params_iff :
      (headers : HeaderMap) (arguments : Option Fields) (schema : Fields)
      → (validate_tool_params http headers arguments schema ≡ ok tt) ↔ (
          (annotations : List ParamHeaderAnnotation) × (param_header_annotations http schema
            ≡ ok annotations)
          × All (AgreesIn headers arguments) annotations)
  unfolding validate_tool_params
  validate_tool_params_iff headers arguments schema =
      elim (Result-cases (param_header_annotations http schema)) [
        | inr (x, e) ↦ rw e ((λ h. cc), (λ (d, f, g). cc))
        | inl (annotations, e) ↦
            let i = check_annotations_iff headers arguments annotations in
            rw e (
              (λ h. (annotations, refl, i.0 h)),
              (λ (d, f, g).
                  i.1 (subst (λ x. All (AgreesIn headers arguments) x) (ok-inj (sym f)) g)),
            )
      ]
