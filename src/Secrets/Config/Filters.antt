-- ===== src/Secrets/Config/Filters.antt =====
-- The field filters: allow and deny lists of dotted paths.
use contextforge_data_plane.Prelude.{
  Str, ◌≡◌, refl, ◌↔◌, Bool, true, false, ◌||◌, ◌&&◌, List, [], ◌∷◌, ◌++◌, append_assoc, arith, inl,
  inr, str_eq, str_eq_iff, str_eq_refl, any, ||_iff, &&_iff,
}
use contextforge_data_plane.Secrets.Config.{
  FieldPath, SecretsDetectionConfig, zip_all_eq, path_starts_with, matches_path_or_descendant,
  can_be_reached_from, path_is_denied, should_scan_field_path, should_traverse_field_path,
}

path_starts_with-nil : (p : List Str) → path_starts_with p [] ≡ true
unfolding path_starts_with zip_all_eq
path_starts_with-nil [] = refl
path_starts_with-nil (a ∷ p) = ground arith

path_starts_with-cons :
    (a b : Str) (p q : List Str)
    → path_starts_with (a ∷ p) (b ∷ q) ≡ (str_eq a b && path_starts_with p q)
unfolding path_starts_with zip_all_eq
path_starts_with-cons a b p q = ground arith

nil-path_starts_with : (b : Str) (q : List Str) → path_starts_with [] (b ∷ q) ≡ false
unfolding path_starts_with
nil-path_starts_with b q = ground arith

path_starts_with_append : (q r : List Str) → path_starts_with (q ++ r) q ≡ true
path_starts_with_append [] r = path_starts_with-nil r
path_starts_with_append (b ∷ q) r =
    rw (path_starts_with-cons, str_eq_refl b) (path_starts_with_append q r)

path_starts_with_split :
    (p q : List Str) → path_starts_with p q ≡ true → (r : List Str) × (p ≡ q ++ r)
path_starts_with_split p [] h = (p, refl)
path_starts_with_split [] (b ∷ q) h = cc (nil-path_starts_with b q)
path_starts_with_split (a ∷ p) (b ∷ q) h =
    let both = (&&_iff (str_eq a b) (path_starts_with p q)).0 (rw path_starts_with-cons at h) in
    let (r, e) = path_starts_with_split p q both.1 in (r, cc ((str_eq_iff a b).0 both.0))

-- The length test and the zipped comparison together say that the second path is a prefix.
pub path_starts_with_iff :
    (p q : List Str) → (path_starts_with p q ≡ true) ↔ ((r : List Str) × (p ≡ q ++ r))
path_starts_with_iff p q = (path_starts_with_split p q, λ w. rw w.1 (path_starts_with_append q w.0))

-- Of two prefixes of one path, one is a prefix of the other.
prefixes_meet :
    (pre rest q : List Str)
    → path_starts_with (pre ++ rest) q ≡ true
    → (path_starts_with pre q || path_starts_with q pre) ≡ true
prefixes_meet [] rest q h = rw path_starts_with-nil (ground arith)
prefixes_meet (a ∷ pre) rest [] h = rw path_starts_with-nil
prefixes_meet (a ∷ pre) rest (b ∷ q) h =
    let both =
      (&&_iff (str_eq a b) (path_starts_with (pre ++ rest) q)).0 (rw path_starts_with-cons at h) in
    let same = (str_eq_iff a b).0 both.0 in
    ground (
      arith,
      path_starts_with-cons a b pre q,
      path_starts_with-cons b a q pre,
      str_eq_iff b a,
      prefixes_meet pre rest q both.1,
    )

starts_extend :
    (pre rest q : List Str)
    → path_starts_with pre q ≡ true
    → path_starts_with (pre ++ rest) q ≡ true
starts_extend pre rest q h =
    let (r, e) = path_starts_with_split pre q h in
    rw (e, append_assoc) (path_starts_with_append q (r ++ rest))

module _ (p q : FieldPath → Bool) where
  any_mono :
      ((f : FieldPath) → p f ≡ true → q f ≡ true)
      → (fs : List FieldPath) → any p fs ≡ true
      → any q fs ≡ true
  any_mono imp [] h = h
  any_mono imp (f ∷ fs) h = elim ((||_iff (p f) (any p fs)).0 h) [
    | inl here ↦ (||_iff (q f) (any q fs)).1 (inl (imp f here))
    | inr later ↦ (||_iff (q f) (any q fs)).1 (inr (any_mono imp fs later))
  ]

denied_extend :
    (c : SecretsDetectionConfig) (pre rest : List Str)
    → path_is_denied c pre ≡ true
    → path_is_denied c (pre ++ rest) ≡ true
unfolding path_is_denied matches_path_or_descendant
denied_extend c pre rest h =
    any_mono _ _ (λ f. starts_extend pre rest f.segments) c.field_denylist h

allowed_reach :
    (pre rest : List Str) (allow : List FieldPath)
    → any (λ f. matches_path_or_descendant f (pre ++ rest)) allow ≡ true
    → any (λ f. matches_path_or_descendant f pre || can_be_reached_from f pre) allow ≡ true
unfolding matches_path_or_descendant can_be_reached_from
allowed_reach pre rest allow h = any_mono _ _ (λ f. prefixes_meet pre rest f.segments) allow h

-- A field that is scanned is reached: every container on the way to it is traversed.
pub should_traverse_of_scan :
    (c : SecretsDetectionConfig) (pre rest : List Str)
    → should_scan_field_path c (pre ++ rest) false ≡ true
    → should_traverse_field_path c pre ≡ true
unfolding should_scan_field_path should_traverse_field_path
should_traverse_of_scan c pre rest h =
    ground (arith, denied_extend c pre rest, allowed_reach pre rest c.field_allowlist)
