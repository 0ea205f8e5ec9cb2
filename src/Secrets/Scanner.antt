-- ===== src/Secrets/Scanner.antt =====
-- scanner.rs, `detect_and_redact`: candidates of every enabled pattern, sorted, overlapping ones
-- merged, and the text redacted. `none` is a panic of a slice. The `regex` crate is the parameter
-- `Matcher`; `patterns` is the order in which the hash map `PATTERNS` happens to be iterated.
pub mod Sort
pub mod Select
pub mod Redact
pub mod Detect
pub mod Tree
mod Tests
use Prim.Native.Nat.{compare, Ordering}
use contextforge_data_plane.Prelude.{
  ℕ, zero, suc, ◌+◌, ◌-◌, Str, str, str_eq, str_cmp, Bool, true, false, not, ◌&&◌, ◌||◌, List, [],
  ◌∷◌, ◌++◌, map, Option, none, some, if◌then◌else◌, leb, ltb, ◌==◌, length, take, drop, between,
  is_ascii_alphanumeric,
}
use contextforge_data_plane.Prelude.Maybe.{◌>>=◌}
use contextforge_data_plane.Secrets.Patterns.{is_capture_pattern}
use contextforge_data_plane.Secrets.Config.{SecretsDetectionConfig, is_enabled}

pub record Finding : Type 0 where
  pub pii_type : Str
  pub preview : Str

-- `regex::Match`: a range of byte offsets.
pub record Match : Type 0 where
  pub start : ℕ
  pub end : ℕ

pub record MatchCandidate : Type 0 where
  pub name : Str
  pub start : ℕ
  pub end : ℕ
  pub text : Str

-- The compiled expression of a pattern, run over a text: all matches, or group 1 of each.
pub record Matcher : Type 0 where
  pub find_iter : Str → Str → List Match
  pub captures_iter : Str → Str → List (Option Match)

pattern_specificity : Str → ℕ
pattern_specificity name =
    if str_eq name (str "generic_api_key_assignment") || str_eq name (str "jwt_like")
    then 1
    else if str_eq name (str "hex_secret_32")
    then 2
    else if str_eq name (str "base64_24")
    then 3
    else 0

is_base64_boundary_char : Option ℕ → Bool
is_base64_boundary_char none = false
is_base64_boundary_char (some ch) =
    is_ascii_alphanumeric ch || ch == b'+' || ch == b'/' || ch == b'='

abbrev head : Str → Option ℕ
head [] = none
head (b ∷ s) = some b

-- The byte begins a UTF-8 character.
abbrev pub begins_char : ℕ → Bool
begins_char b = not (between 0x80 0xbf b)

-- `str::is_char_boundary`, and `&text[from..to]` with its panics.
pub is_char_boundary : Str → ℕ → Bool
is_char_boundary text zero = true
is_char_boundary [] (suc i) = false
is_char_boundary (b ∷ []) (suc zero) = true
is_char_boundary (b ∷ c ∷ text) (suc zero) = begins_char c
is_char_boundary (b ∷ text) (suc (suc i)) = is_char_boundary text (suc i)

pub slice : Str → ℕ → ℕ → Option Str
slice text from to =
    if leb from to && leb to (length text) && is_char_boundary text from && is_char_boundary text to
    then some (take (to - from) (drop from text))
    else none

abbrev candidate : Str → Str → Match → MatchCandidate
candidate name text matched = record {
  name = name;
  start = matched.start;
  end = matched.end;
  text = take (matched.end - matched.start) (drop matched.start text);
}

captured : Str → Str → List (Option Match) → List MatchCandidate
captured name text [] = []
captured name text (none ∷ ms) = captured name text ms
captured name text (some matched ∷ ms) =
    let rest = captured name text ms in
    if is_base64_boundary_char (head (drop matched.end text))
    then rest
    else candidate name text matched ∷ rest

module _ (matcher : Matcher) (config : SecretsDetectionConfig) (text : Str) where
  candidates_of : Str → List MatchCandidate
  candidates_of name =
      if not (is_enabled config name)
      then []
      else if is_capture_pattern name
      then captured name text (matcher.captures_iter name text)
      else map (candidate name text) (matcher.find_iter name text)

  pub candidates : List Str → List MatchCandidate
  candidates [] = []
  candidates (name ∷ names) = candidates_of name ++ candidates names

abbrev then_with : Ordering → Ordering → Ordering
then_with Ordering.eq next = next
then_with Ordering.lt next = Ordering.lt
then_with Ordering.gt next = Ordering.gt

abbrev span : MatchCandidate → ℕ
span c = c.end - c.start

-- The comparison of `candidates.sort_by`.
compare_candidates : MatchCandidate → MatchCandidate → Ordering
compare_candidates left right = then_with (compare left.start right.start) (
    then_with (compare (pattern_specificity left.name) (pattern_specificity right.name))
      (then_with (compare (span right) (span left)) (str_cmp left.name right.name)))

abbrev is_gt : Ordering → Bool
is_gt Ordering.gt = true
is_gt _ = false

-- A stable sort. The library's sort is another algorithm with the same result.
insert_sorted : MatchCandidate → List MatchCandidate → List MatchCandidate
insert_sorted c [] = c ∷ []
insert_sorted c (d ∷ ds) =
    let later = insert_sorted c ds in
    if is_gt (compare_candidates c d) then d ∷ later else c ∷ d ∷ ds

pub sort_candidates : List MatchCandidate → List MatchCandidate
sort_candidates [] = []
sort_candidates (c ∷ cs) = insert_sorted c (sort_candidates cs)

-- An overlapping candidate widens the current one, and renames it if it is more specific.
absorb : MatchCandidate → MatchCandidate → MatchCandidate
absorb current candidate =
    let wins =
      ltb (pattern_specificity candidate.name) (pattern_specificity current.name)
      || pattern_specificity candidate.name == pattern_specificity current.name
        && ltb (span current) (span candidate) in
    record {
      name = if wins then candidate.name else current.name;
      start = current.start;
      end = if ltb current.end candidate.end then candidate.end else current.end;
      text = if wins then candidate.text else current.text;
    }

-- The loop over the sorted candidates; `current` is the last element of `selected`.
select_from : MatchCandidate → List MatchCandidate → List MatchCandidate
select_from current [] = current ∷ []
select_from current (c ∷ cs) =
    let apart = current ∷ select_from c cs in
    let joined = select_from (absorb current c) cs in
    if leb current.end c.start then apart else joined

pub select : List MatchCandidate → List MatchCandidate
select [] = []
select (c ∷ cs) = select_from c cs

-- `chars().count()` and `chars().take(n)`.
char_count : Str → ℕ
char_count [] = 0
char_count (b ∷ s) = if begins_char b then suc (char_count s) else char_count s

take_chars : ℕ → Str → Str
take_chars n [] = []
take_chars zero (b ∷ s) = let rest = take_chars zero s in if begins_char b then [] else b ∷ rest
take_chars (suc n) (b ∷ s) = b ∷ take_chars (if begins_char b then n else suc n) s

preview_of : Str → Str
preview_of text = if ltb 8 (char_count text) then take_chars 8 text ++ str "..." else text

pub finding_of : MatchCandidate → Finding
finding_of matched = record { pii_type = matched.name; preview = preview_of matched.text }

pub redact_from : Str → Str → ℕ → List MatchCandidate → Option Str
redact_from text redaction cursor [] = slice text cursor (length text)
redact_from text redaction cursor (matched ∷ ms) = do
  gap ← slice text cursor matched.start
  rest ← redact_from text redaction matched.end ms
  some (gap ++ (redaction ++ rest))

redact_selected : SecretsDetectionConfig → Str → List MatchCandidate → Option Str
redact_selected config text [] = some text
redact_selected config text (m ∷ ms) =
    if config.redact then redact_from text config.redaction_text 0 (m ∷ ms) else some text

pub detect_and_redact :
    Matcher → List Str → Str → SecretsDetectionConfig → Option (List Finding × Str)
detect_and_redact matcher patterns text config =
    let selected = select (sort_candidates (candidates matcher config text patterns)) in
    redact_selected config text selected >>= λ redacted. some (map finding_of selected, redacted)
