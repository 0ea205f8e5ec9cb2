-- ===== src/Secrets/Scanner/Detect.antt =====
-- `detect_and_redact` as a whole, under what the `regex` crate documents of its matches.

use contextforge_data_plane.Prelude.{
  ℕ, ◌≤◌, ◌<◌, Str, ◌≡◌, refl, ap, ◌∙◌, ◌↔◌, inl, inr, Bool, true, List, [], ◌∷◌, map, Option, none,
  some, arith, All, All-append, Bool-cases, length, leb, if◌then◌else◌, drop,
}
use contextforge_data_plane.Secrets.Patterns.{is_capture_pattern}
use contextforge_data_plane.Secrets.Config.{SecretsDetectionConfig, is_enabled}
use contextforge_data_plane.Secrets.Scanner.{
  Match, MatchCandidate, Matcher, is_char_boundary, candidates_of, candidates, captured, candidate,
  head, is_base64_boundary_char, absorb, select_from, select, sort_candidates, redact_selected,
  finding_of, detect_and_redact,
}
use contextforge_data_plane.Secrets.Scanner.Sort.{Covers, sort_candidates-All}
use contextforge_data_plane.Secrets.Scanner.Select.{
  IsWithin, Chain, select-sort-Chain, select-sort-Covers,
}
use contextforge_data_plane.Secrets.Scanner.Redact.{
  covered, begins, render, redact_from-eq-pieces, pieces-eq-render, render_ext, render_copy,
  IsNonempty,
}

-- A match is a nonempty range of whole characters of the text.
pub record IsMatch (text : Str) (m : Match) : Type 0 where
  pub nonempty : m.start < m.end
  pub bounded : m.end ≤ length text
  pub starts_char : is_char_boundary text m.start ≡ true
  pub ends_char : is_char_boundary text m.end ≡ true

abbrev pub IsGroup : Str → Option Match → Type 0
IsGroup text none = Unit
IsGroup text (some m) = IsMatch text m

pub record IsWellBehaved (matcher : Matcher) : Type 0 where
  pub matches : (name text : Str) → All (IsMatch text) (matcher.find_iter name text)
  pub groups : (name text : Str) → All (IsGroup text) (matcher.captures_iter name text)

abbrev IsFound : Str → MatchCandidate → Type 0
IsFound text c = IsWithin text c × IsNonempty c

candidate-IsFound :
    (name text : Str) (m : Match) → IsMatch text m → IsFound text (candidate name text m)
candidate-IsFound name text m h = (
  record {
    ordered = omega arith;
    bounded = h.bounded;
    starts_char = h.starts_char;
    ends_char = h.ends_char;
  },
  h.nonempty,
)

map-IsFound :
    (name text : Str) (ms : List Match)
    → All (IsMatch text) ms
    → All (IsFound text) (map (candidate name text) ms)
map-IsFound name text [] h = tt
map-IsFound name text (m ∷ ms) h = (candidate-IsFound name text m h.0, map-IsFound name text ms h.1)

captured-IsFound :
    (name text : Str) (ms : List (Option Match))
    → All (IsGroup text) ms
    → All (IsFound text) (captured name text ms)
unfolding captured
captured-IsFound name text [] h = tt
captured-IsFound name text (none ∷ ms) h = captured-IsFound name text ms h.1
captured-IsFound name text (some m ∷ ms) h =
    let rest = captured-IsFound name text ms h.1 in
    elim (Bool-cases (is_base64_boundary_char (head (drop m.end text)))) [
      | inl e ↦ rw e rest
      | inr e ↦ rw e (candidate-IsFound name text m h.0, rest)
    ]

module _ (matcher : Matcher) (config : SecretsDetectionConfig) (text : Str)
    (behaved : IsWellBehaved matcher) where
  candidates_of-IsFound : (name : Str) → All (IsFound text) (candidates_of matcher config text name)
  unfolding candidates_of
  candidates_of-IsFound name = elim (Bool-cases (is_enabled config name)) [
    | inl e ↦ elim (Bool-cases (is_capture_pattern name)) [
      | inl f ↦ rw (e, f) (captured-IsFound name text _ (behaved.groups name text))
      | inr f ↦ rw (e, f) (map-IsFound name text _ (behaved.matches name text))
    ]
    | inr e ↦ rw e tt
  ]

  pub candidates-IsFound :
      (names : List Str) → All (IsFound text) (candidates matcher config text names)
  unfolding candidates
  candidates-IsFound [] = tt
  candidates-IsFound (name ∷ names) =
      All-append (IsFound text) _ _ (candidates_of-IsFound name) (candidates-IsFound names)

All-left {κ μ} :
    {A : Type 0} (P : A → Type κ) (Q : A → Type μ) (xs : List A)
    → All (λ x. P x × Q x) xs
    → All P xs
All-left P Q [] h = tt
All-left P Q (x ∷ xs) h = (h.0.0, All-left P Q xs h.1)

All-right {κ μ} :
    {A : Type 0} (P : A → Type κ) (Q : A → Type μ) (xs : List A)
    → All (λ x. P x × Q x) xs
    → All Q xs
All-right P Q [] h = tt
All-right P Q (x ∷ xs) h = (h.0.1, All-right P Q xs h.1)

absorb-IsNonempty : (a b : MatchCandidate) → IsNonempty a → IsNonempty (absorb a b)
unfolding absorb
absorb-IsNonempty a b h = ground arith

select_from-IsNonempty :
    (c : MatchCandidate) (cs : List MatchCandidate)
    → IsNonempty c
    → All IsNonempty cs
    → All IsNonempty (select_from c cs)
unfolding select_from
select_from-IsNonempty c [] h k = (h, tt)
select_from-IsNonempty c (d ∷ ds) h k = elim (Bool-cases (leb c.end d.start)) [
  | inl e ↦ rw e (h, select_from-IsNonempty d ds k.0 k.1)
  | inr e ↦ rw e (select_from-IsNonempty (absorb c d) ds (absorb-IsNonempty c d h) k.1)
]

select-IsNonempty : (cs : List MatchCandidate) → All IsNonempty cs → All IsNonempty (select cs)
unfolding select
select-IsNonempty [] h = tt
select-IsNonempty (c ∷ cs) h = select_from-IsNonempty c cs h.0 h.1

covered_iff : (cs : List MatchCandidate) (p : ℕ) → (covered cs p ≡ true) ↔ Covers p cs
covered_iff [] p = ((λ h. cc), (λ h. absurd h))
covered_iff (c ∷ cs) p = ground (arith, covered_iff cs p)

Bool-ext : (a b : Bool) → ((a ≡ true) ↔ (b ≡ true)) → a ≡ b
Bool-ext a b h = ground arith

-- Merging does not change which bytes are covered.
covered-select-sort :
    (cs : List MatchCandidate) (p : ℕ) → covered (select (sort_candidates cs)) p ≡ covered cs p
covered-select-sort cs p =
    let left = covered_iff (select (sort_candidates cs)) p in
    let right = covered_iff cs p in
    let same = select-sort-Covers p cs in
    Bool-ext _ _ ((λ h. right.1 (same.0 (left.0 h))), (λ h. left.1 (same.1 (right.0 h))))

starts_boundary : (text : Str) → is_char_boundary text 0 ≡ true
unfolding is_char_boundary
starts_boundary [] = refl
starts_boundary (b ∷ []) = refl
starts_boundary (b ∷ c ∷ text) = refl

redact_selected_lem :
    (config : SecretsDetectionConfig) (text : Str) (ms : List MatchCandidate)
    → Chain text 0 ms
    → All IsNonempty ms
    → redact_selected config text ms
      ≡ some (
          if config.redact
          then render config.redaction_text (begins ms) (covered ms) 0 text
          else text)
unfolding redact_selected
redact_selected_lem config text [] h n = elim (Bool-cases config.redact) [
  | inl e ↦
      rw (
        e,
        render_copy config.redaction_text (begins []) (covered []) 0 text (λ j p q. (refl, refl)),
      )
  | inr e ↦ rw e
]
redact_selected_lem config text (m ∷ ms) h n = elim (Bool-cases config.redact) [
  | inl e ↦ rw e (
      redact_from-eq-pieces text config.redaction_text 0 (m ∷ ms)
        (omega arith, starts_boundary text) h
      ∙ ap some (pieces-eq-render text config.redaction_text 0 (m ∷ ms) (omega arith) h n))
  | inr e ↦ rw e
]

-- Under the documented behaviour of the matcher nothing panics, there is one finding for each
-- merged range, and with redaction on the result is the text without the bytes that any candidate
-- covers, the replacement standing where each merged range begins. With redaction off the text is
-- returned as it is.
pub detect_and_redact_lem :
    (matcher : Matcher) (patterns : List Str) (text : Str) (config : SecretsDetectionConfig)
    → IsWellBehaved matcher
    → (redacted : Str) × (detect_and_redact matcher patterns text config
        ≡ some (
          map finding_of (select (sort_candidates (candidates matcher config text patterns))),
          redacted,
        ))
      × (redacted ≡ (
          if config.redact
          then render config.redaction_text
              (begins (select (sort_candidates (candidates matcher config text patterns))))
              (covered (candidates matcher config text patterns))
              0
              text
          else text))
unfolding detect_and_redact
detect_and_redact_lem matcher patterns text config behaved =
    let cs = candidates matcher config text patterns in
    let found = candidates-IsFound matcher config text behaved patterns in
    let chain = select-sort-Chain text cs (All-left (IsWithin text) IsNonempty cs found) in
    let sizes =
      select-IsNonempty (sort_candidates cs)
        (sort_candidates-All IsNonempty cs (All-right (IsWithin text) IsNonempty cs found)) in
    (
      if config.redact
          then render config.redaction_text (begins (select (sort_candidates cs)))
              (covered (select (sort_candidates cs))) 0 text
          else text,
      rw (redact_selected_lem config text (select (sort_candidates cs)) chain sizes),
      ap (λ t. if config.redact then t else text)
          (render_ext config.redaction_text (begins (select (sort_candidates cs)))
            (begins (select (sort_candidates cs))) (covered (select (sort_candidates cs)))
            (covered cs) 0 text (λ j p. (refl, covered-select-sort cs j))),
    )
