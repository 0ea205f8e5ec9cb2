-- ===== src/Prelude/Split.antt =====
-- Splitting a text at a separator and joining it again.
use native.Mathlib.Omega.{arith}
use mathlib.Core.Path.{◌≡◌, refl, ap, ◌∙◌}
use mathlib.Core.Logic.{◌≢◌, inl, inr}
use mathlib.Core.Bool.{false}
use mathlib.Core.List.{List, [], ◌∷◌, ◌++◌}
use Prim.Native.Nat.{ℕ}
use contextforge_data_plane.Prelude.Tests.{◌==◌, ==_iff, Bool-cases}
use contextforge_data_plane.Prelude.Lists.{All}
use contextforge_data_plane.Prelude.Text.{
  Str, split, join, push_head, is_blank, white_1, white_2, white_3,
}

-- No byte of the text is the separator.
abbrev pub Without : ℕ → Str → Type 0
Without c s = All (λ b. (b == c) ≡ false) s

push_head-ne-nil : (b : ℕ) (ss : List Str) → push_head b ss ≢ []
push_head-ne-nil b [] = cc
push_head-ne-nil b (s ∷ ss) = cc

pub split-ne-nil : (c : ℕ) (s : Str) → split c s ≢ []
unfolding split
split-ne-nil c [] = cc
split-ne-nil c (b ∷ s) = elim (Bool-cases (b == c)) [
  | inl e ↦ rw e (cc)
  | inr e ↦ rw e (push_head-ne-nil b (split c s))
]

join-push_head : (c b : ℕ) (ss : List Str) → ss ≢ [] → join c (push_head b ss) ≡ b ∷ join c ss
unfolding join
join-push_head c b [] h = absurd (h refl)
join-push_head c b (s ∷ []) h = refl
join-push_head c b (s ∷ t ∷ ts) h = refl

join-nil_head : (c : ℕ) (ss : List Str) → ss ≢ [] → join c ([] ∷ ss) ≡ c ∷ join c ss
unfolding join
join-nil_head c [] h = absurd (h refl)
join-nil_head c (s ∷ ss) h = refl

-- Joining what was split gives the text back.
pub join-split : (c : ℕ) (s : Str) → join c (split c s) ≡ s
unfolding split
join-split c [] = unfold join in refl
join-split c (b ∷ s) = elim (Bool-cases (b == c)) [
  | inl e ↦ rw (e, join-nil_head c (split c s) (split-ne-nil c s), join-split c s) (ground arith)
  | inr e ↦ rw (e, join-push_head c b (split c s) (split-ne-nil c s), join-split c s)
]

push_head-Without :
    (c b : ℕ) (ss : List Str)
    → (b == c) ≡ false
    → All (Without c) ss
    → All (Without c) (push_head b ss)
push_head-Without c b [] e h = ((e, tt), tt)
push_head-Without c b (s ∷ ss) e h = ((e, h.0), h.1)

pub split-Without : (c : ℕ) (s : Str) → All (Without c) (split c s)
unfolding split
split-Without c [] = (tt, tt)
split-Without c (b ∷ s) = elim (Bool-cases (b == c)) [
  | inl e ↦ rw e (tt, split-Without c s)
  | inr e ↦ rw e (push_head-Without c b (split c s) e (split-Without c s))
]

split_of_Without : (c : ℕ) (s : Str) → Without c s → split c s ≡ s ∷ []
unfolding split
split_of_Without c [] h = refl
split_of_Without c (b ∷ s) h = rw (h.0, split_of_Without c s h.1)

split-append : (c : ℕ) (s t : Str) → Without c s → split c (s ++ (c ∷ t)) ≡ s ∷ split c t
unfolding split
split-append c [] t h = rw ((==_iff c c).1 refl)
split-append c (b ∷ s) t h = rw (h.0, split-append c s t h.1)

-- Splitting what was joined gives the parts back, if none holds the separator.
pub split-join : (c : ℕ) (ss : List Str) → ss ≢ [] → All (Without c) ss → split c (join c ss) ≡ ss
unfolding join
split-join c [] n h = absurd (n refl)
split-join c (s ∷ []) n h = split_of_Without c s h.0
split-join c (s ∷ t ∷ ts) n h =
    split-append c s (join c (t ∷ ts)) h.0 ∙ ap (λ r. s ∷ r) (split-join c (t ∷ ts) (cc) h.1)

is_blank_step :
    (a b d : ℕ) (s : Str)
    → is_blank (b ∷ d ∷ s) ≡ false
    → is_blank (d ∷ s) ≡ false
    → is_blank s ≡ false
    → is_blank (a ∷ b ∷ d ∷ s) ≡ false
unfolding is_blank
is_blank_step a b d s h k l = ground arith

-- A text with a dot is not blank.
pub is_blank-append_dot : (s t : Str) → is_blank (s ++ (b'.' ∷ t)) ≡ false
unfolding is_blank white_1 white_2 white_3
is_blank-append_dot [] [] = refl
is_blank-append_dot [] (b ∷ []) = refl
is_blank-append_dot [] (b ∷ d ∷ t) = refl
is_blank-append_dot (a ∷ []) [] = ground arith
is_blank-append_dot (a ∷ []) (b ∷ t) = ground (arith, is_blank-append_dot [] (b ∷ t))
is_blank-append_dot (a ∷ b ∷ []) t =
    ground (arith, is_blank-append_dot (b ∷ []) t, is_blank-append_dot [] t)
is_blank-append_dot (a ∷ b ∷ d ∷ s) t =
    is_blank_step a b d (s ++ (b'.' ∷ t)) (is_blank-append_dot (b ∷ d ∷ s) t)
      (is_blank-append_dot (d ∷ s) t) (is_blank-append_dot s t)
