-- ===== src/Secrets/Scanner/Redact.antt =====
-- Redaction: it never slices out of range, and its result, byte by byte.
use native.Mathlib.Nat.{add-suc, suc-add, add-zero}
use contextforge_data_plane.Prelude.{
  ℕ, suc, ◌+◌, ◌-◌, ◌≤◌, ◌<◌, Str, ◌≡◌, refl, sym, ap, subst, ◌∙◌, Bool, true, false, ◌&&◌, List,
  [], ◌∷◌, ◌++◌, append-nil, append_assoc, some, arith, All, length, take, drop, any, leb, ltb,
  ◌==◌, if◌then◌else◌, take-append-drop, length-take, length-drop, drop-drop,
}
use contextforge_data_plane.Secrets.Scanner.{MatchCandidate, is_char_boundary, slice, redact_from}
use contextforge_data_plane.Secrets.Scanner.Select.{Chain}

-- Whether a range covers, or begins at, offset `i`.
abbrev pub covered : List MatchCandidate → ℕ → Bool
covered cs i = any (λ c. leb c.start i && ltb i c.end) cs

abbrev pub begins : List MatchCandidate → ℕ → Bool
begins cs i = any (λ c. c.start == i) cs

-- The text from offset `i` on, byte by byte: the replacement where a range begins, then the byte
-- unless it is covered.
pub render : Str → (ℕ → Bool) → (ℕ → Bool) → ℕ → Str → Str
render r starts hidden i [] = []
render r starts hidden i (b ∷ s) =
    (if starts i then r else [])
    ++ ((if hidden i then [] else b ∷ []) ++ render r starts hidden (suc i) s)

slice_lem :
    (text : Str) (a b : ℕ)
    → a ≤ b
    → b ≤ length text
    → is_char_boundary text a ≡ true
    → is_char_boundary text b ≡ true
    → slice text a b ≡ some (take (b - a) (drop a text))
unfolding slice
slice_lem text a b h k p q = ground arith

boundary-length : (text : Str) → is_char_boundary text (length text) ≡ true
unfolding is_char_boundary
boundary-length [] = refl
boundary-length (b ∷ []) = refl
boundary-length (b ∷ c ∷ text) = boundary-length (c ∷ text)

abbrev pub CursorOk : Str → ℕ → Type 0
CursorOk text cursor = (cursor ≤ length text) × (is_char_boundary text cursor ≡ true)

-- The pieces that the loop puts together.
pub pieces : Str → Str → ℕ → List MatchCandidate → Str
pieces text r cursor [] = take (length text - cursor) (drop cursor text)
pieces text r cursor (m ∷ ms) =
    take (m.start - cursor) (drop cursor text) ++ (r ++ pieces text r m.end ms)

pub redact_from-eq-pieces :
    (text r : Str) (cursor : ℕ) (ms : List MatchCandidate)
    → CursorOk text cursor
    → Chain text cursor ms
    → redact_from text r cursor ms ≡ some (pieces text r cursor ms)
unfolding redact_from pieces
redact_from-eq-pieces text r cursor [] ok h =
    slice_lem text cursor (length text) ok.0 (omega arith) ok.1 (boundary-length text)
redact_from-eq-pieces text r cursor (m ∷ ms) ok h = rw (
  slice_lem text cursor m.start h.0 (omega arith) ok.1 h.1.starts_char,
  redact_from-eq-pieces text r m.end ms (h.1.bounded, h.1.ends_char) h.2,
)

module _ (r : Str) (starts hidden : ℕ → Bool) where
  render-append :
      (i : ℕ) (xs ys : Str)
      → render r starts hidden i (xs ++ ys)
        ≡ render r starts hidden i xs ++ render r starts hidden (i + length xs) ys
  unfolding render
  render-append i [] ys = rw add-zero
  render-append i (x ∷ xs) ys = simp (render-append (suc i) xs ys, append_assoc, add-suc, suc-add)

  -- Bytes where nothing begins and nothing is covered are copied.
  pub render_copy :
      (i : ℕ) (xs : Str)
      → ((j : ℕ) → i ≤ j → j < i + length xs → (starts j ≡ false) × (hidden j ≡ false))
      → render r starts hidden i xs ≡ xs
  unfolding render
  render_copy i [] h = refl
  render_copy i (x ∷ xs) h =
      let (a, b) = h i (omega arith) (omega arith) in
      rw (a, b, render_copy (suc i) xs (λ j p q. h j (omega arith) (omega arith)))

  -- Covered bytes where nothing begins are dropped.
  render_skip :
      (i : ℕ) (xs : Str)
      → ((j : ℕ) → i ≤ j → j < i + length xs → (starts j ≡ false) × (hidden j ≡ true))
      → render r starts hidden i xs ≡ []
  unfolding render
  render_skip i [] h = refl
  render_skip i (x ∷ xs) h =
      let (a, b) = h i (omega arith) (omega arith) in
      rw (a, b, render_skip (suc i) xs (λ j p q. h j (omega arith) (omega arith)))

pub render_ext :
    (r : Str) (s s' h h' : ℕ → Bool) (i : ℕ) (xs : Str)
    → ((j : ℕ) → i ≤ j → (s j ≡ s' j) × (h j ≡ h' j))
    → render r s h i xs ≡ render r s' h' i xs
unfolding render
render_ext r s s' h h' i [] e = refl
render_ext r s s' h h' i (x ∷ xs) e =
    let (a, b) = e i (omega arith) in
    rw (a, b, render_ext r s s' h h' (suc i) xs (λ j p. e j (omega arith)))

drop_split :
    (a b : ℕ) (text : Str) → a ≤ b → take (b - a) (drop a text) ++ drop b text ≡ drop a text
drop_split a b text h =
    let e : a + (b - a) ≡ b = omega arith in
    subst (λ k. take (b - a) (drop a text) ++ drop k text ≡ drop a text) e
      (subst (λ t. take (b - a) (drop a text) ++ t ≡ drop a text) (drop-drop (b - a) a text)
        (take-append-drop (b - a) (drop a text)))

length-piece :
    (a b : ℕ) (text : Str) → a ≤ b → b ≤ length text → length (take (b - a) (drop a text)) ≡ b - a
length-piece a b text h k = omega (arith, length-take (b - a) (drop a text), length-drop a text)

-- Two adjacent pieces of a text are rendered one after the other.
render_split :
    (r : Str) (s h : ℕ → Bool) (a b : ℕ) (text : Str)
    → a ≤ b
    → b ≤ length text
    → render r s h a (drop a text)
      ≡ render r s h a (take (b - a) (drop a text)) ++ render r s h b (drop b text)
render_split r s h a b text p q =
    let e : a + length (take (b - a) (drop a text)) ≡ b =
      omega (arith, length-piece a b text p q) in
    ap (render r s h a) (sym (drop_split a b text p))
    ∙ render-append r s h a (take (b - a) (drop a text)) (drop b text)
    ∙ ap (λ k. render r s h a (take (b - a) (drop a text)) ++ render r s h k (drop b text)) e

-- Nothing of a chain lies before its cursor.
below-Chain :
    (text : Str) (cursor j : ℕ) (ms : List MatchCandidate)
    → Chain text cursor ms
    → j < cursor
    → (begins ms j ≡ false) × (covered ms j ≡ false)
below-Chain text cursor j [] h k = (refl, refl)
below-Chain text cursor j (m ∷ ms) h k =
    let w = h.1.ordered in
    let later = below-Chain text m.end j ms h.2 (omega arith) in
    (ground (arith, later), ground (arith, later))

abbrev pub IsNonempty : MatchCandidate → Type 0
IsNonempty m = m.start < m.end

take_all : (xs : Str) → take (length xs) xs ≡ xs
take_all [] = refl
take_all (x ∷ xs) = ap (λ l. x ∷ l) (take_all xs)

-- A range with its first byte: the replacement, and the rest of it is dropped.
render_range :
    (r : Str) (s h : ℕ → Bool) (i : ℕ) (xs : Str)
    → 0 < length xs
    → s i ≡ true
    → h i ≡ true
    → ((j : ℕ) → suc i ≤ j → j < i + length xs → (s j ≡ false) × (h j ≡ true))
    → render r s h i xs ≡ r
unfolding render
render_range r s h i [] p a b rest = absurd (omega arith)
render_range r s h i (x ∷ xs) p a b rest =
    rw (a, b, render_skip r s h (suc i) xs (λ j u v. rest j (omega arith) (omega arith)))
      (append-nil r)

pub pieces-eq-render :
    (text r : Str) (cursor : ℕ) (ms : List MatchCandidate)
    → cursor ≤ length text
    → Chain text cursor ms
    → All IsNonempty ms
    → pieces text r cursor ms ≡ render r (begins ms) (covered ms) cursor (drop cursor text)
unfolding pieces
pieces-eq-render text r cursor [] k h n =
    ap (λ i. take i (drop cursor text)) (sym (length-drop cursor text))
    ∙ take_all (drop cursor text)
    ∙ sym (render_copy r (begins []) (covered []) cursor (drop cursor text) (λ j p q. (refl, refl)))
pieces-eq-render text r cursor (m ∷ ms) k h n =
    let s = begins (m ∷ ms) in
    let c = covered (m ∷ ms) in
    let order : m.start < m.end = n.0 in
    let bound = h.1.bounded in
    let after = λ (j : ℕ) (p : j < m.end). below-Chain text m.end j ms h.2 p in
    let gap : render r s c cursor (take (m.start - cursor) (drop cursor text))
        ≡ take (m.start - cursor) (drop cursor text) =
      render_copy r s c cursor _ (λ j p q.
        let lt : j < m.start = omega (arith, length-piece cursor m.start text h.0 (omega arith)) in
        let (a, b) = after j (omega arith) in (ground arith, ground arith)) in
    let range : render r s c m.start (take (m.end - m.start) (drop m.start text)) ≡ r =
      render_range r s c m.start _
        (omega (arith, length-piece m.start m.end text (omega arith) bound)) (ground arith)
        (ground arith)
        (λ j p q.
          let lt : j < m.end = omega (arith, length-piece m.start m.end text (omega arith) bound) in
          let (a, b) = after j lt in (ground arith, ground arith)) in
    let rest : render r s c m.end (drop m.end text) ≡ pieces text r m.end ms =
      render_ext r s (begins ms) c (covered ms) m.end (drop m.end text)
        (λ j p. (ground arith, ground arith))
      ∙ sym (pieces-eq-render text r m.end ms bound h.2 n.1) in
    sym (
      render_split r s c cursor m.start text h.0 (omega arith)
      ∙ ap (λ t. render r s c cursor (take (m.start - cursor) (drop cursor text)) ++ t)
          (render_split r s c m.start m.end text (omega arith) bound)
      ∙ rw (gap, range, rest))
