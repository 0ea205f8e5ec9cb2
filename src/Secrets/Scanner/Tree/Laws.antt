-- ===== src/Secrets/Scanner/Tree/Laws.antt =====
-- The walk against a reference that visits every string, and what a report says of its value.
use native.Mathlib.Nat.{zero-add}
use contextforge_data_plane.Prelude.Maybe.{◌>>=◌}
use contextforge_data_plane.Prelude.{
  Str, ◌≡◌, refl, inl, inr, Bool, false, List, [], ◌∷◌, ◌++◌, append-nil, append_assoc, Option,
  some, Bool-cases, if◌then◌else◌, subst,
}
use contextforge_data_plane.Json.{
  Value, null, bool, number, string, array, object, Items, nil, cons, Fields, end, field,
}
use contextforge_data_plane.Secrets.Config.{
  SecretsDetectionConfig, should_scan_field_path, should_traverse_field_path,
}
use contextforge_data_plane.Secrets.Config.Filters.{should_traverse_of_scan}
use contextforge_data_plane.Secrets.Scanner.{Finding}
use contextforge_data_plane.Secrets.Scanner.Tree.{
  Report, ScanReport, clean, with_redacted, both, text_report, scan_value, scan_items, scan_fields,
}

module _ (detect : Str → Option (List Finding × Str)) (config : SecretsDetectionConfig) where
  -- The reference: every string of the value is visited, and only its own path decides.
  mutual
    pub visit : Value → List Str → Bool → Option ScanReport
    visit (string text) path root =
        if should_scan_field_path config path root
        then (detect text >>= λ found. some (text_report found))
        else some (clean (string text))
    visit (array vs) path root =
        visit_items vs path >>= λ r. some (with_redacted r (array r.redacted))
    visit (object fs) path root =
        visit_fields fs path >>= λ r. some (with_redacted r (object r.redacted))
    visit null path root = some (clean null)
    visit (bool b) path root = some (clean (bool b))
    visit (number n) path root = some (clean (number n))

    pub visit_items : Items → List Str → Option (Report Items)
    visit_items nil path = some (clean nil)
    visit_items (cons v vs) path = do
      child ← visit v path false
      rest ← visit_items vs path
      some (both child rest cons)

    pub visit_fields : Fields → List Str → Option (Report Fields)
    visit_fields end path = some (clean end)
    visit_fields (field k v fs) path = do
      child ← visit v (path ++ (k ∷ [])) false
      rest ← visit_fields fs path
      some (both child rest (field k))

  -- No path from here on is to be scanned.
  abbrev IsDead : List Str → Type 0
  IsDead path = (rest : List Str) → should_scan_field_path config (path ++ rest) false ≡ false

  IsDead-child : (path : List Str) (k : Str) → IsDead path → IsDead (path ++ (k ∷ []))
  IsDead-child path k h rest = rw append_assoc (h (k ∷ rest))

  IsDead-of_untraversed :
      (path : List Str) → should_traverse_field_path config path ≡ false → IsDead path
  IsDead-of_untraversed path h rest =
      elim (Bool-cases (should_scan_field_path config (path ++ rest) false)) [
        | inl e ↦ cc (should_traverse_of_scan config path rest e)
        | inr e ↦ e
      ]

  mutual
    unfolding visit

    visit_dead : (v : Value) (path : List Str) → IsDead path → visit v path false ≡ some (clean v)
    visit_dead (string text) path h =
        rw (subst (λ p. should_scan_field_path config p false ≡ false) (append-nil path) (h []))
    visit_dead (array vs) path h = rw (visit_items_dead vs path h)
    visit_dead (object fs) path h = rw (visit_fields_dead fs path h)
    visit_dead null path h = refl
    visit_dead (bool b) path h = refl
    visit_dead (number n) path h = refl

    visit_items_dead :
        (vs : Items) (path : List Str) → IsDead path → visit_items vs path ≡ some (clean vs)
    visit_items_dead nil path h = refl
    visit_items_dead (cons v vs) path h =
        rw (visit_dead v path h, visit_items_dead vs path h, zero-add)

    visit_fields_dead :
        (fs : Fields) (path : List Str) → IsDead path → visit_fields fs path ≡ some (clean fs)
    visit_fields_dead end path h = refl
    visit_fields_dead (field k v fs) path h = rw (
      visit_dead v (path ++ (k ∷ [])) (IsDead-child path k h),
      visit_fields_dead fs path h,
      zero-add,
    )

  mutual
    unfolding scan_value visit

    scan_eq_visit :
        (v : Value) (path : List Str) (root : Bool)
        → scan_value detect config v path root ≡ visit v path root
    scan_eq_visit (string text) path root = refl
    scan_eq_visit (array vs) path root =
        elim (Bool-cases (should_traverse_field_path config path)) [
          | inl e ↦ rw (e, scan_items_eq vs path)
          | inr e ↦ rw (e, visit_items_dead vs path (IsDead-of_untraversed path e))
        ]
    scan_eq_visit (object fs) path root =
        elim (Bool-cases (should_traverse_field_path config path)) [
          | inl e ↦ rw (e, scan_fields_eq fs path)
          | inr e ↦ rw (e, visit_fields_dead fs path (IsDead-of_untraversed path e))
        ]
    scan_eq_visit null path root = refl
    scan_eq_visit (bool b) path root = refl
    scan_eq_visit (number n) path root = refl

    scan_items_eq :
        (vs : Items) (path : List Str) → scan_items detect config vs path ≡ visit_items vs path
    scan_items_eq nil path = refl
    scan_items_eq (cons v vs) path = rw (scan_eq_visit v path false, scan_items_eq vs path)

    scan_fields_eq :
        (fs : Fields) (path : List Str) → scan_fields detect config fs path ≡ visit_fields fs path
    scan_fields_eq end path = refl
    scan_fields_eq (field k v fs) path =
        rw (scan_eq_visit v (path ++ (k ∷ [])) false, scan_fields_eq fs path)

  -- Skipping the arrays and objects that the filters do not reach loses nothing: the walk agrees with
  -- the one that visits every string and asks only whether that string's own path is to be scanned.
  pub scan_value-eq-visit :
      (v : Value) (path : List Str) (root : Bool)
      → scan_value detect config v path root ≡ visit v path root
  scan_value-eq-visit v path root = scan_eq_visit v path root
