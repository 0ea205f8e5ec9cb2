-- ===== src/Headers/Integer.antt =====
-- mcp_standard_headers.rs, `parse_integer_header_value`: an integer in decimal or exponent form.
pub mod Bounds
use contextforge_data_plane.Prelude.{
  ℕ, zero, suc, ◌+◌, ◌-◌, ◌*◌, ◌^◌, Str, Bool, true, false, ◌||◌, not, [], ◌∷◌, ◌++◌, Option, none,
  some, if◌then◌else◌, ltb, leb, ◌==◌, length, take, drop, all, is_ascii_digit,
}
use contextforge_data_plane.Prelude.Maybe.{◌>>=◌}

pub data ℤ : Type 0 where
  pos : ℕ → ℤ
  negsuc : ℕ → ℤ

abbrev pub max_safe_integer : ℕ
max_safe_integer = 9007199254740991

abbrev i64_max : ℕ
i64_max = 2 ^ 63 - 1

abbrev u64_max : ℕ
u64_max = 2 ^ 64 - 1

abbrev pub negate : ℕ → ℤ
negate zero = pos 0
negate (suc n) = negsuc n

-- Some argument under a condition, none otherwise.
abbrev pub guard {ℓ} : {A : Type ℓ} → Bool → A → Option A
guard c a = if c then some a else none

-- `str::split_once` at the first byte that passes a test.
abbrev pub prepend : ℕ → Option (Str × Str) → Option (Str × Str)
prepend b none = none
prepend b (some (s, t)) = some (b ∷ s, t)

unfoldable pub split_once : (ℕ → Bool) → Str → Option (Str × Str)
split_once f [] = none
split_once f (b ∷ s) = let rest = split_once f s in if f b then some ([], s) else prepend b rest

-- The value of a string of digits, read on from what is read already.
unfoldable pub digits_from : ℕ → Str → ℕ
digits_from n [] = n
digits_from n (b ∷ s) = digits_from (n * 10 + (b - b'0')) s

unfoldable pub trim_zeros : Str → Str
trim_zeros [] = []
trim_zeros (b ∷ s) = let rest = trim_zeros s in if b == b'0' then rest else b ∷ s

-- `str::parse::<i64>` and `str::parse::<u64>` of a text without a sign before it.
abbrev pub is_digits : Str → Bool
is_digits [] = false
is_digits (b ∷ s) = all is_ascii_digit (b ∷ s)

abbrev pub sign : Str → Bool × Str
sign [] = (false, [])
sign (b ∷ s) = if b == b'-' then (true, s) else if b == b'+' then (false, s) else (false, b ∷ s)

unfoldable pub parse_i64 : Str → Option ℤ
unfolding digits_from
parse_i64 s =
    let (negative, digits) = sign s in
    let n = digits_from 0 digits in
    if not (is_digits digits)
    then none
    else if negative
    then guard (leb n (i64_max + 1)) (negate n)
    else guard (leb n i64_max) (pos n)

-- `fraction.len() - exponent`, in i64: positive, or the negation of the number of zeros to append.
abbrev pub scale_of : ℕ → ℤ → Option ℤ
scale_of n (pos e) = if leb e n then some (pos (n - e)) else some (negate (e - n))
scale_of n (negsuc e) = guard (leb (n + e + 1) i64_max) (pos (n + e + 1))

abbrev pub checked : ℕ → Option ℕ
checked n = guard (leb n u64_max) n

unfoldable pub magnitude_of : Str → ℕ → Option ℕ
unfolding digits_from
magnitude_of integer_digits trailing_zeroes =
    if ltb 16 (length integer_digits + trailing_zeroes) then none else (do
      n ← checked (digits_from 0 integer_digits)
      power ← checked (10 ^ trailing_zeroes)
      magnitude ← checked (n * power)
      if ltb max_safe_integer magnitude then none else some magnitude)

unfoldable pub scaled : Str → ℤ → Option ℕ
unfolding magnitude_of trim_zeros
scaled digits (pos zero) =
    let integer_digits = trim_zeros digits in
    if length integer_digits == 0 then some 0 else magnitude_of integer_digits 0
scaled digits (pos (suc n)) =
    let scale = suc n in
    let integer_end = length digits - scale in
    let integer_digits = trim_zeros (take integer_end digits) in
    if ltb (length digits) scale
    then (if all (λ b. b == b'0') digits then some 0 else none)
    else if not (all (λ b. b == b'0') (drop integer_end digits))
    then none
    else if length integer_digits == 0
    then some 0
    else magnitude_of integer_digits 0
scaled digits (negsuc n) =
    let integer_digits = trim_zeros digits in
    if length integer_digits == 0 then some 0 else magnitude_of integer_digits (suc n)

abbrev pub exponent_of : Str → Option (Str × ℤ)
exponent_of value = elim (split_once (λ b. b == b'e' || b == b'E') value) [
  | none ↦ some (value, pos 0)
  | some (mantissa, exponent) ↦ parse_i64 exponent >>= λ e. some (mantissa, e)
]

abbrev pub fraction_of : Str → Option (Str × Str)
fraction_of mantissa = elim (split_once (λ b. b == b'.') mantissa) [
  | none ↦ some (mantissa, [])
  | some (whole, fraction) ↦ if length fraction == 0 then none else some (whole, fraction)
]

unfoldable pub parse_integer_header_value : Str → Option ℤ
unfolding scaled parse_i64 split_once
parse_integer_header_value text =
    let (negative, value) = sign text in
    do
      (mantissa, exponent) ← exponent_of value
      (whole, fraction) ← fraction_of mantissa
      if length whole == 0 || not (all is_ascii_digit whole) || not (all is_ascii_digit fraction)
          then none
          else (do
            scale ← scale_of (length fraction) exponent
            magnitude ← scaled (whole ++ fraction) scale
            some (if negative then negate magnitude else pos magnitude))
