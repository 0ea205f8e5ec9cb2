-- ===== src/Headers/Backend/Protected.antt =====
-- What a backend's configuration cannot change.
use contextforge_data_plane.Prelude.{
  Str, ◌≡◌, inl, inr, refl, ◌∙◌, ap, Bool, true, false, List, [], ◌∷◌, Option, none, some,
  if◌then◌else◌, arith, str_eq, str_eq_iff, Option-cases,
}
use contextforge_data_plane.Prelude.Map.{Map, lookup, insert, remove, lookup-insert, lookup-remove}
use contextforge_data_plane.UserStore.{BackendMcpGateway}
use contextforge_data_plane.Headers.{HeaderConstants, HeaderMap, is_param}
use contextforge_data_plane.Headers.Backend.{
  header, is_protected_header, pass_through, forward_params, add, remove_all, pass_one, add_one,
  remove_one, apply_header_config,
}

module _ (constants : HeaderConstants) (name_from_bytes : Str → Option Str)
    (value_from_str : Str → Option Str) where
  abbrev protected : Str → Bool
  protected = is_protected_header constants

  -- Inserting or removing an unprotected name keeps a protected one.
  insert-protected :
      (k n v : Str) (m : Map Str)
      → protected k ≡ true
      → lookup k (if protected n then m else insert n v m) ≡ lookup k m
  insert-protected k n v m h = ground (arith, str_eq_iff n k, lookup-insert n k v m)

  remove-protected :
      (k n : Str) (m : Map Str)
      → protected k ≡ true
      → lookup k (if protected n then m else remove n m) ≡ lookup k m
  remove-protected k n m h = ground (arith, str_eq_iff n k, lookup-remove n k m)

  -- The last `Mcp-Param` value of a downstream request under a name, or else what the map holds.
  abbrev pub last_param : Str → HeaderMap → Option Str → Option Str
  last_param k [] v = v
  last_param k ((n, w) ∷ downstream) v =
      last_param k downstream
        (if is_param constants n then (if str_eq n k then some w else v) else v)

  pass_one-protected :
      (raw : Str) (d : HeaderMap) (m : Map Str) (k : Str)
      → protected k ≡ true
      → lookup k (pass_one constants name_from_bytes value_from_str raw d m) ≡ lookup k m
  pass_one-protected raw d m k h = elim (Option-cases (name_from_bytes raw)) [
    | inl e ↦ rw (pass_one, e) refl
    | inr (n, e) ↦ elim (Option-cases (header n d)) [
      | inl f ↦ rw (pass_one, e, f) (ground arith)
      | inr (v, f) ↦ rw (pass_one, e, f) (insert-protected k n v m h)
    ]
  ]

  add_one-protected :
      (raw value : Str) (m : Map Str) (k : Str)
      → protected k ≡ true
      → lookup k (add_one constants name_from_bytes value_from_str raw value m) ≡ lookup k m
  add_one-protected raw value m k h = elim (Option-cases (name_from_bytes raw)) [
    | inl e ↦ rw (add_one, e) refl
    | inr (n, e) ↦ elim (Option-cases (value_from_str value)) [
      | inl f ↦ rw (add_one, e, f) refl
      | inr (v, f) ↦ rw (add_one, e, f) (insert-protected k n v m h)
    ]
  ]

  remove_one-protected :
      (raw : Str) (m : Map Str) (k : Str)
      → protected k ≡ true
      → lookup k (remove_one constants name_from_bytes value_from_str raw m) ≡ lookup k m
  remove_one-protected raw m k h = elim (Option-cases (name_from_bytes raw)) [
    | inl e ↦ rw (remove_one, e) refl
    | inr (n, e) ↦ rw (remove_one, e) (remove-protected k n m h)
  ]

  pass_through-protected :
      (names : List Str) (d : HeaderMap) (m : Map Str) (k : Str)
      → protected k ≡ true
      → lookup k (pass_through constants name_from_bytes value_from_str names d m) ≡ lookup k m
  unfolding pass_through
  pass_through-protected [] d m k h = refl
  pass_through-protected (raw ∷ names) d m k h =
      pass_through-protected names d _ k h ∙ pass_one-protected raw d m k h

  add-protected :
      (new m : Map Str) (k : Str)
      → protected k ≡ true
      → lookup k (add constants name_from_bytes value_from_str new m) ≡ lookup k m
  unfolding add
  add-protected [] m k h = refl
  add-protected ((n, v) ∷ new) m k h = add-protected new _ k h ∙ add_one-protected n v m k h

  remove_all-protected :
      (names : List Str) (m : Map Str) (k : Str)
      → protected k ≡ true
      → lookup k (remove_all constants name_from_bytes value_from_str names m) ≡ lookup k m
  unfolding remove_all
  remove_all-protected [] m k h = refl
  remove_all-protected (raw ∷ names) m k h =
      remove_all-protected names _ k h ∙ remove_one-protected raw m k h

  lookup-insert_if :
      (b : Bool) (k n v : Str) (m : Map Str)
      → lookup k (if b then insert n v m else m)
        ≡ (if b then (if str_eq n k then some v else lookup k m) else lookup k m)
  lookup-insert_if true k n v m = lookup-insert n k v m
  lookup-insert_if false k n v m = refl

  forward_params-lookup :
      (d : HeaderMap) (m : Map Str) (k : Str)
      → lookup k (forward_params constants name_from_bytes value_from_str d m)
        ≡ last_param k d (lookup k m)
  unfolding forward_params
  forward_params-lookup [] m k = refl
  forward_params-lookup ((n, v) ∷ d) m k =
      forward_params-lookup d _ k
      ∙ ap (last_param k d) (lookup-insert_if (is_param constants n) k n v m)

  -- A backend's configuration never changes a header it must not touch: after passing through, adding
  -- and removing headers, a protected name holds what the map held before, or, with a downstream
  -- request, the last `Mcp-Param` value which that request has under the name.
  pub apply_header_config-protected :
      (headers : Map Str) (backend : BackendMcpGateway) (downstream : Option HeaderMap) (k : Str)
      → is_protected_header constants k ≡ true
      → lookup k
          (apply_header_config constants name_from_bytes value_from_str headers backend downstream)
        ≡ (elim downstream [ none ↦ lookup k headers | some d ↦ last_param k d (lookup k headers) ])
  unfolding apply_header_config
  apply_header_config-protected headers backend none k h =
      remove_all-protected backend.remove_headers _ k h
      ∙ add-protected backend.add_headers headers k h
  apply_header_config-protected headers backend (some d) k h =
      remove_all-protected backend.remove_headers _ k h
      ∙ add-protected backend.add_headers _ k h
      ∙ forward_params-lookup d _ k
      ∙ ap (last_param k d) (pass_through-protected backend.passthrough_headers d headers k h)
