-- ===== src/Prelude/Text.antt =====
-- Text. A Rust `String` or byte string is the list of its bytes (UTF-8 where it is a `String`).
use Prim.Native.Nat.{ℕ, ◌+◌, compare, Ordering}
use Prim.Native.Char.{code}
use Prim.Native.String.{String}
use mathlib.Core.Path.{◌≡◌, refl}
use mathlib.Core.Logic.{◌↔◌}
use mathlib.Core.Bool.{Bool, true, false, ◌&&◌, ◌||◌}
use mathlib.Core.Option.{Option, none, some}
use mathlib.Core.List.{List, [], ◌∷◌, ◌++◌, map}
use native.Mathlib.Omega.{arith}
use contextforge_data_plane.Prelude.Tests.{leb, ◌==◌, if◌then◌else◌}

abbrev pub Str : Type 0
Str = List ℕ

-- An ASCII literal.
unfoldable pub str : String → Str
str String.[] = []
str (String.◌∷◌ c s) = code c ∷ str s

unfoldable pub str_eq : Str → Str → Bool
str_eq [] [] = true
str_eq (a ∷ s) (b ∷ t) = (a == b) && str_eq s t
str_eq [] (b ∷ t) = false
str_eq (a ∷ s) [] = false

pub str_eq_iff : (s t : Str) → (str_eq s t ≡ true) ↔ (s ≡ t)
unfolding str_eq
str_eq_iff [] [] = ((λ _. refl), (λ _. refl))
str_eq_iff (a ∷ s) (b ∷ t) = ground (arith, str_eq_iff s t)
str_eq_iff [] (b ∷ t) = ground arith
str_eq_iff (a ∷ s) [] = ground arith

pub str_eq_refl : (s : Str) → str_eq s s ≡ true
str_eq_refl s = (str_eq_iff s s).1 refl

-- `str::cmp`: lexicographic by bytes.
unfoldable pub str_cmp : Str → Str → Ordering
str_cmp [] [] = Ordering.eq
str_cmp [] (b ∷ t) = Ordering.lt
str_cmp (a ∷ s) [] = Ordering.gt
str_cmp (a ∷ s) (b ∷ t) = elim (compare a b) [
  | Ordering.lt ↦ Ordering.lt
  | Ordering.gt ↦ Ordering.gt
  | Ordering.eq ↦ str_cmp s t
]

abbrev pub between : ℕ → ℕ → ℕ → Bool
between lo hi b = leb lo b && leb b hi

-- `u8::is_ascii_alphanumeric`, `u8::is_ascii_digit`, `u8::to_ascii_lowercase`.
unfoldable pub is_ascii_digit : ℕ → Bool
is_ascii_digit b = between b'0' b'9' b

unfoldable pub is_ascii_alphanumeric : ℕ → Bool
unfolding is_ascii_digit
is_ascii_alphanumeric b = is_ascii_digit b || between b'A' b'Z' b || between b'a' b'z' b

unfoldable pub to_ascii_lowercase : ℕ → ℕ
to_ascii_lowercase b = if between b'A' b'Z' b then b + 32 else b

abbrev pub lowercase : Str → Str
lowercase = map to_ascii_lowercase

-- `str::eq_ignore_ascii_case`.
unfoldable pub eq_ignore_ascii_case : Str → Str → Bool
unfolding to_ascii_lowercase str_eq
eq_ignore_ascii_case s t = str_eq (lowercase s) (lowercase t)

unfoldable pub mem_str : Str → List Str → Bool
unfolding str_eq
mem_str s [] = false
mem_str s (t ∷ ts) = str_eq s t || mem_str s ts

-- `str::strip_prefix`.
unfoldable pub strip_prefix : Str → Str → Option Str
strip_prefix [] s = some s
strip_prefix (p ∷ ps) [] = none
strip_prefix (p ∷ ps) (b ∷ s) = if p == b then strip_prefix ps s else none

-- The separator form of `str::split`; the result is never empty.
abbrev pub push_head : ℕ → List Str → List Str
push_head b [] = (b ∷ []) ∷ []
push_head b (s ∷ ss) = (b ∷ s) ∷ ss

unfoldable pub split : ℕ → Str → List Str
split c [] = [] ∷ []
split c (b ∷ s) = let rest = split c s in if b == c then [] ∷ rest else push_head b rest

-- `[String]::join` with a one-byte separator.
unfoldable pub join : ℕ → List Str → Str
join c [] = []
join c (s ∷ []) = s
join c (s ∷ t ∷ ts) = s ++ (c ∷ join c (t ∷ ts))

-- Whether a text is empty after `str::trim`: every character has the White_Space property.
unfoldable pub white_1 : ℕ → Bool
white_1 a = between 9 13 a || a == 32

unfoldable pub white_2 : ℕ → ℕ → Bool
white_2 a b = a == 0xc2 && (b == 0x85 || b == 0xa0)

unfoldable pub white_3 : ℕ → ℕ → ℕ → Bool
white_3 a b c =
    a == 0xe1 && b == 0x9a && c == 0x80
    || a == 0xe2 && b == 0x80 && (between 0x80 0x8a c || c == 0xa8 || c == 0xa9 || c == 0xaf)
    || a == 0xe2 && b == 0x81 && c == 0x9f
    || a == 0xe3 && b == 0x80 && c == 0x80

unfoldable pub is_blank : Str → Bool
is_blank [] = true
is_blank (a ∷ []) = white_1 a
is_blank (a ∷ b ∷ []) = white_1 a && white_1 b || white_2 a b
is_blank (a ∷ b ∷ c ∷ s) = elim (white_1 a) [
  | true ↦ is_blank (b ∷ c ∷ s)
  | false ↦ elim (white_2 a b) [ true ↦ is_blank (c ∷ s) | false ↦ white_3 a b c && is_blank s ]
]

-- `str::starts_with` and `str::ends_with` for a character.
abbrev pub starts_with_char : ℕ → Str → Bool
starts_with_char c [] = false
starts_with_char c (b ∷ s) = b == c

abbrev pub ends_with_char : ℕ → Str → Bool
ends_with_char c [] = false
ends_with_char c (b ∷ []) = b == c
ends_with_char c (a ∷ b ∷ s) = ends_with_char c (b ∷ s)
