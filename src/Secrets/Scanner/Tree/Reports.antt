-- ===== src/Secrets/Scanner/Tree/Reports.antt =====
-- What a scan report says of the value that was scanned.

use contextforge_data_plane.Prelude.{
  Str, ◌≡◌, refl, sym, ap, subst, map, ◌∙◌, inl, inr, Bool, false, List, [], ◌∷◌, ◌++◌, Option,
  some, arith, Bool-cases, length, length-append,
}
use contextforge_data_plane.Prelude.Maybe.{bind-eq-some, some-inj}
use contextforge_data_plane.Json.{
  Value, null, bool, number, string, array, object, Items, nil, cons, Fields, end, field,
}
use contextforge_data_plane.Secrets.Config.{
  SecretsDetectionConfig, should_scan_field_path, should_traverse_field_path,
}
use contextforge_data_plane.Secrets.Scanner.{
  Finding, Matcher, detect_and_redact, redact_selected, select, sort_candidates, candidates,
  finding_of, MatchCandidate,
}
use contextforge_data_plane.Secrets.Scanner.Tree.{
  Report, ScanReport, clean, with_redacted, both, text_report, scan_value, scan_items, scan_fields,
}

-- A value with every string emptied: its keys, its order, its nesting and its other scalars.
mutual
  pub outline : Value → Value
  outline (string text) = string []
  outline (array vs) = array (outline_items vs)
  outline (object fs) = object (outline_fields fs)
  outline null = null
  outline (bool b) = bool b
  outline (number n) = number n

  pub outline_items : Items → Items
  outline_items nil = nil
  outline_items (cons v vs) = cons (outline v) (outline_items vs)

  pub outline_fields : Fields → Fields
  outline_fields end = end
  outline_fields (field k v fs) = field k (outline v) (outline_fields fs)

-- The count is the number of findings, a report without findings has the value unchanged, and only
-- texts ever change.
pub record IsFaithful {A : Type 0} (out : A → A) (v : A) (r : Report A) : Type 0 where
  pub counted : r.count ≡ length r.findings
  pub kept : r.findings ≡ [] → r.redacted ≡ v
  pub shape : out r.redacted ≡ out v

append-eq-nil {ℓ} : {A : Type ℓ} (xs ys : List A) → xs ++ ys ≡ [] → (xs ≡ []) × (ys ≡ [])
append-eq-nil [] ys h = (refl, h)
append-eq-nil (x ∷ xs) ys h = cc

module _ {A : Type 0} (out : A → A) where
  clean-IsFaithful : (v : A) → IsFaithful out v (clean v)
  clean-IsFaithful v = record { counted = refl; kept = λ h. refl; shape = refl }

  of_clean : (v : A) (r : Report A) → some (clean v) ≡ some r → IsFaithful out v r
  of_clean v r h = let e : clean v ≡ r = cc in subst (IsFaithful out v) e (clean-IsFaithful v)

module _ {A B C : Type 0} (out_a : A → A) (out_b : B → B) (out_c : C → C) (f : A → B → C) where
  both-IsFaithful :
      (v : A) (w : B) (r : Report A) (s : Report B)
      → ((a : A) (b : B) → out_c (f a b) ≡ f (out_a a) (out_b b))
      → IsFaithful out_a v r
      → IsFaithful out_b w s
      → IsFaithful out_c (f v w) (both r s f)
  both-IsFaithful v w r s out-f h k = record {
    counted = omega (arith, h.counted, k.counted, length-append r.findings s.findings);
    kept = λ e.
        let (left, right) = append-eq-nil r.findings s.findings e in cc (h.kept left, k.kept right);
    shape = out-f r.redacted s.redacted ∙ cc (h.shape, k.shape, out-f v w);
  }

module _ {A B : Type 0} (out_a : A → A) (out_b : B → B) (f : A → B) where
  wrap-IsFaithful :
      (v : A) (r : Report A)
      → ((a : A) → out_b (f a) ≡ f (out_a a))
      → IsFaithful out_a v r
      → IsFaithful out_b (f v) (with_redacted r (f r.redacted))
  wrap-IsFaithful v r out-f h = record {
    counted = h.counted;
    kept = λ e. ap f (h.kept e);
    shape = out-f r.redacted ∙ ap f h.shape ∙ sym (out-f v);
  }

-- A text scan that reports nothing leaves the text alone.
pub record IsHonest (detect : Str → Option (List Finding × Str)) : Type 0 where
  pub silent : (text redacted : Str) → detect text ≡ some ([], redacted) → redacted ≡ text

module _ (detect : Str → Option (List Finding × Str)) (honest : IsHonest detect)
    (config : SecretsDetectionConfig) where
  text-IsFaithful :
      (text : Str) (found : List Finding × Str)
      → detect text ≡ some found
      → IsFaithful outline (string text) (text_report found)
  unfolding outline
  text-IsFaithful text (fs, t) h = record {
    counted = refl;
    kept = λ e. ap string (honest.silent text t (subst (λ l. detect text ≡ some (l, t)) e h));
    shape = refl;
  }

  mutual
    unfolding scan_value outline

    value-IsFaithful :
        (v : Value) (path : List Str) (root : Bool) (r : ScanReport)
        → scan_value detect config v path root ≡ some r
        → IsFaithful outline v r
    value-IsFaithful (string text) path root r h =
        elim (Bool-cases (should_scan_field_path config path root)) [
          | inl e ↦
              let (found, p, q) = bind-eq-some (detect text) _ (rw e at h) in
              subst (IsFaithful outline (string text)) (some-inj q) (text-IsFaithful text found p)
          | inr e ↦ of_clean outline (string text) r (rw e at h)
        ]
    value-IsFaithful (array vs) path root r h =
        elim (Bool-cases (should_traverse_field_path config path)) [
          | inl e ↦
              let (s, p, q) = bind-eq-some (scan_items detect config vs path) _ (rw e at h) in
              subst (IsFaithful outline (array vs)) (some-inj q) (
                wrap-IsFaithful outline_items outline array vs s (λ a. refl)
                  (items-IsFaithful vs path s p))
          | inr e ↦ of_clean outline (array vs) r (rw e at h)
        ]
    value-IsFaithful (object fs) path root r h =
        elim (Bool-cases (should_traverse_field_path config path)) [
          | inl e ↦
              let (s, p, q) = bind-eq-some (scan_fields detect config fs path) _ (rw e at h) in
              subst (IsFaithful outline (object fs)) (some-inj q) (
                wrap-IsFaithful outline_fields outline object fs s (λ a. refl)
                  (fields-IsFaithful fs path s p))
          | inr e ↦ of_clean outline (object fs) r (rw e at h)
        ]
    value-IsFaithful null path root r h = of_clean outline null r h
    value-IsFaithful (bool b) path root r h = of_clean outline (bool b) r h
    value-IsFaithful (number n) path root r h = of_clean outline (number n) r h

    items-IsFaithful :
        (vs : Items) (path : List Str) (r : Report Items)
        → scan_items detect config vs path ≡ some r
        → IsFaithful outline_items vs r
    items-IsFaithful nil path r h = of_clean outline_items nil r h
    items-IsFaithful (cons v vs) path r h =
        let (a, p, h') = bind-eq-some (scan_value detect config v path false) _ h in
        let (b, q, e) = bind-eq-some (scan_items detect config vs path) _ h' in
        subst (IsFaithful outline_items (cons v vs)) (some-inj e) (
          both-IsFaithful outline outline_items outline_items cons v vs a b (λ x y. refl)
            (value-IsFaithful v path false a p) (items-IsFaithful vs path b q))

    fields-IsFaithful :
        (fs : Fields) (path : List Str) (r : Report Fields)
        → scan_fields detect config fs path ≡ some r
        → IsFaithful outline_fields fs r
    fields-IsFaithful end path r h = of_clean outline_fields end r h
    fields-IsFaithful (field k v fs) path r h =
        let (a, p, h') = bind-eq-some (scan_value detect config v (path ++ (k ∷ [])) false) _ h in
        let (b, q, e) = bind-eq-some (scan_fields detect config fs path) _ h' in
        subst (IsFaithful outline_fields (field k v fs)) (some-inj e) (
          both-IsFaithful outline outline_fields outline_fields (field k) v fs a b (λ x y. refl)
            (value-IsFaithful v (path ++ (k ∷ [])) false a p) (fields-IsFaithful fs path b q))

map-eq-nil : (cs : List MatchCandidate) → map finding_of cs ≡ [] → cs ≡ []
map-eq-nil [] h = refl
map-eq-nil (c ∷ cs) h = cc

-- `detect_and_redact` redacts only what it reports.
pub detect_and_redact-IsHonest :
    (matcher : Matcher) (patterns : List Str) (config : SecretsDetectionConfig)
    → IsHonest (λ text. detect_and_redact matcher patterns text config)
unfolding detect_and_redact redact_selected
detect_and_redact-IsHonest matcher patterns config = record {
  silent = λ text redacted h.
      let cs = select (sort_candidates (candidates matcher config text patterns)) in
      let (t, p, q) = bind-eq-some (redact_selected config text cs) _ h in
      let none_left : cs ≡ [] = map-eq-nil cs (cc) in
      let same : redact_selected config text [] ≡ some t =
        subst (λ l. redact_selected config text l ≡ some t) none_left p in
      cc;
}

-- A scan report counts its findings, keeps the value where it has none, and changes nothing but
-- texts: keys, order, nesting and the other scalars stay.
pub scan_value-IsFaithful :
    (detect : Str → Option (List Finding × Str)) (config : SecretsDetectionConfig) (v : Value)
    (path : List Str) (root : Bool) (r : ScanReport)
    → IsHonest detect
    → scan_value detect config v path root ≡ some r
    → IsFaithful outline v r
scan_value-IsFaithful detect config v path root r honest h =
    value-IsFaithful detect honest config v path root r h
