-- ===== src/Secrets/Config/Paths.antt =====
-- What `FieldPath::parse` accepts.
use contextforge_data_plane.Prelude.{
  ℕ, Str, append-nil, subst, ◌≡◌, refl, ◌≢◌, ◌↔◌, ◌∙◌, ap, Bool, false, ◌||◌, List, [], ◌∷◌, ◌++◌,
  arith, any, All, split, join, split-ne-nil, is_blank, starts_with_char, ends_with_char, Without,
  join-split, split-Without, split-join, is_blank-append_dot, ok,
}
use contextforge_data_plane.Secrets.Config.{FieldPath, parse}

-- The dotted path `path` consists of these segments: at least one, none blank, none with a dot.
pub record IsDotted (segments : List Str) (path : Str) : Type 0 where
  pub nonempty : segments ≢ []
  pub nonblank : All (λ s. is_blank s ≡ false) segments
  pub dotless : All (Without b'.') segments
  pub joined : join b'.' segments ≡ path

any-eq-false : (p : Str → Bool) (ss : List Str) → any p ss ≡ false → All (λ s. p s ≡ false) ss
any-eq-false p [] h = tt
any-eq-false p (s ∷ ss) h = (ground arith, any-eq-false p ss (ground arith))

any_of_All : (p : Str → Bool) (ss : List Str) → All (λ s. p s ≡ false) ss → any p ss ≡ false
any_of_All p [] h = refl
any_of_All p (s ∷ ss) h = rw (h.0, any_of_All p ss h.1)

-- What the three tests of `parse` leave.
parse-eq-ok :
    (path name : Str) (p : FieldPath)
    → parse path name ≡ ok p
    → (p.segments ≡ split b'.' path) × (any is_blank (split b'.' path) ≡ false)
unfolding parse
parse-eq-ok path name p h = ground arith

parse_of_tests :
    (path name : Str)
    → is_blank path ≡ false
    → (starts_with_char b'.' path || ends_with_char b'.' path) ≡ false
    → any is_blank (split b'.' path) ≡ false
    → parse path name ≡ ok (record { segments = split b'.' path })
unfolding parse
parse_of_tests path name a b c = rw (a, b, c)

blank-ne : (s : Str) → is_blank s ≡ false → s ≢ []
unfolding is_blank
blank-ne [] h = cc
blank-ne (b ∷ s) h = cc

join-not-blank :
    (ss : List Str) → ss ≢ [] → All (λ s. is_blank s ≡ false) ss → is_blank (join b'.' ss) ≡ false
unfolding join
join-not-blank [] n h = absurd (n refl)
join-not-blank (s ∷ []) n h = h.0
join-not-blank (s ∷ t ∷ ts) n h = is_blank-append_dot s (join b'.' (t ∷ ts))

starts_append : (s t : Str) → s ≢ [] → Without b'.' s → starts_with_char b'.' (s ++ t) ≡ false
starts_append [] t n h = absurd (n refl)
starts_append (b ∷ s) t n h = h.0

ends_Without : (s : Str) → Without b'.' s → ends_with_char b'.' s ≡ false
ends_Without [] h = refl
ends_Without (b ∷ []) h = h.0
ends_Without (a ∷ b ∷ s) h = ends_Without (b ∷ s) h.1

ends_append : (s t : Str) (c : ℕ) → ends_with_char b'.' (s ++ (c ∷ t)) ≡ ends_with_char b'.' (c ∷ t)
ends_append [] t c = refl
ends_append (a ∷ []) t c = refl
ends_append (a ∷ b ∷ s) t c = ends_append (b ∷ s) t c

ends_cons : (c : ℕ) (s : Str) → s ≢ [] → ends_with_char b'.' (c ∷ s) ≡ ends_with_char b'.' s
ends_cons c [] n = absurd (n refl)
ends_cons c (b ∷ s) n = refl

join-ends :
    (ss : List Str)
    → ss ≢ []
    → All (λ s. is_blank s ≡ false) ss
    → All (Without b'.') ss
    → (starts_with_char b'.' (join b'.' ss) ≡ false) × (ends_with_char b'.' (join b'.' ss) ≡ false)
unfolding join
join-ends [] n h w = absurd (n refl)
join-ends (s ∷ []) n h w = (
  subst (λ u. starts_with_char b'.' u ≡ false) (append-nil s)
      (starts_append s [] (blank-ne s h.0) w.0),
  ends_Without s w.0,
)
join-ends (s ∷ t ∷ ts) n h w = (
  starts_append s (b'.' ∷ join b'.' (t ∷ ts)) (blank-ne s h.0) w.0,
  ends_append s (join b'.' (t ∷ ts)) b'.'
      ∙ ends_cons b'.' (join b'.' (t ∷ ts)) (blank-ne _ (join-not-blank (t ∷ ts) (cc) h.1))
      ∙ (join-ends (t ∷ ts) (cc) h.1 w.1).1,
)

parse_of_IsDotted :
    (path name : Str) (p : FieldPath) → IsDotted p.segments path → parse path name ≡ ok p
parse_of_IsDotted path name p d =
    let same : split b'.' path ≡ p.segments =
      subst (λ u. split b'.' u ≡ p.segments) d.joined
        (split-join b'.' p.segments d.nonempty d.dotless) in
    let (starts, ends) = join-ends p.segments d.nonempty d.nonblank d.dotless in
    parse_of_tests path name
      (subst (λ u. is_blank u ≡ false) d.joined (join-not-blank p.segments d.nonempty d.nonblank))
      (subst (λ u. (starts_with_char b'.' u || ends_with_char b'.' u) ≡ false) d.joined
        (rw (starts, ends)))
      (rw same (any_of_All is_blank p.segments d.nonblank))
    ∙ ap (λ ss. ok (record { segments = ss })) same

-- A path parses to some segments exactly when it is those segments joined by dots, at least one of
-- them, none blank and none with a dot inside: parsing loses nothing and accepts nothing else.
pub parse_iff :
    (path name : Str) (p : FieldPath) → (parse path name ≡ ok p) ↔ IsDotted p.segments path
parse_iff path name p = (
  λ h.
      let (same, tests) = parse-eq-ok path name p h in
      record {
        nonempty = rw same (split-ne-nil b'.' path);
        nonblank = rw same (any-eq-false is_blank (split b'.' path) tests);
        dotless = rw same (split-Without b'.' path);
        joined = rw same (join-split b'.' path);
      },
  parse_of_IsDotted path name p,
)
