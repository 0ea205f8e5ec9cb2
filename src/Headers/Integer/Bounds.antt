-- ===== src/Headers/Integer/Bounds.antt =====
-- The integers that a header can hold.
use contextforge_data_plane.Prelude.{
  ℕ, zero, suc, ◌+◌, ◌-◌, ◌*◌, ◌^◌, ◌≤◌, ◌≡◌, subst, Str, Bool, true, false, ◌||◌, not, ◌++◌,
  Option, none, some, if◌then◌else◌, ltb, ◌==◌, length, take, drop, all, arith, is_ascii_digit,
}
use contextforge_data_plane.Prelude.Maybe.{bind-eq-some, some-inj, return_none-eq-some}
use contextforge_data_plane.Headers.Integer.{
  ℤ, pos, negsuc, negate, max_safe_integer, magnitude_of, scaled, trim_zeros, sign, exponent_of,
  fraction_of, scale_of, checked, digits_from, parse_integer_header_value,
}

-- `Number.MAX_SAFE_INTEGER` of JavaScript, on either side of zero.
pub IsSafe : ℤ → Type 0
IsSafe (pos n) = n ≤ max_safe_integer
IsSafe (negsuc n) = n + 1 ≤ max_safe_integer

-- A magnitude, if there is one, is safe.
record IsBounded (o : Option ℕ) : Type 0 where
  bounded : (m : ℕ) → o ≡ some m → m ≤ max_safe_integer

zero-IsBounded : IsBounded (some 0)
zero-IsBounded = record {
  bounded = λ m h. subst (λ k. k ≤ max_safe_integer) (some-inj h) (omega arith);
}

none-IsBounded : IsBounded none
none-IsBounded = record { bounded = λ m h. absurd cc }

if-IsBounded :
    (c : Bool) {x y : Option ℕ} → IsBounded x → IsBounded y → IsBounded (if c then x else y)
if-IsBounded true h k = h
if-IsBounded false h k = k

magnitude_of-IsBounded : (digits : Str) (n : ℕ) → IsBounded (magnitude_of digits n)
unfolding magnitude_of
magnitude_of-IsBounded digits n = record {
  bounded = λ m h.
      let (_, h1) = return_none-eq-some (ltb 16 (length digits + n)) _ h in
      let (value, _, h2) = bind-eq-some (checked (digits_from 0 digits)) _ h1 in
      let (power, _, h3) = bind-eq-some (checked (10 ^ n)) _ h2 in
      let (magnitude, _, h4) = bind-eq-some (checked (value * power)) _ h3 in
      let (safe, same) = return_none-eq-some (ltb max_safe_integer magnitude) _ h4 in
      subst (λ k. k ≤ max_safe_integer) (some-inj same) (ground arith);
}

scaled-IsBounded : (digits : Str) (scale : ℤ) → IsBounded (scaled digits scale)
unfolding scaled
scaled-IsBounded digits (pos zero) =
    if-IsBounded (length (trim_zeros digits) == 0) zero-IsBounded
      (magnitude_of-IsBounded (trim_zeros digits) 0)
scaled-IsBounded digits (pos (suc n)) =
    let integer_end = length digits - suc n in
    let integer_digits = trim_zeros (take integer_end digits) in
    if-IsBounded (ltb (length digits) (suc n))
      (if-IsBounded (all (λ b. b == b'0') digits) zero-IsBounded none-IsBounded)
      (if-IsBounded (not (all (λ b. b == b'0') (drop integer_end digits))) none-IsBounded (
        if-IsBounded (length integer_digits == 0) zero-IsBounded
          (magnitude_of-IsBounded integer_digits 0)))
scaled-IsBounded digits (negsuc n) =
    if-IsBounded (length (trim_zeros digits) == 0) zero-IsBounded
      (magnitude_of-IsBounded (trim_zeros digits) (suc n))

signed-IsSafe :
    (negative : Bool) (magnitude : ℕ)
    → magnitude ≤ max_safe_integer
    → IsSafe (if negative then negate magnitude else pos magnitude)
unfolding IsSafe
signed-IsSafe true zero h = h
signed-IsSafe true (suc n) h = omega arith
signed-IsSafe false n h = h

-- An integer that is read from a header, in any of its forms, is one that JavaScript represents exactly: its
-- magnitude is at most 2^53 - 1.
pub parse_integer_header_value-IsSafe :
    (text : Str) {i : ℤ} → parse_integer_header_value text ≡ some i → IsSafe i
unfolding parse_integer_header_value
parse_integer_header_value-IsSafe text h =
    let (negative, value) = sign text in
    let (parts, _, h1) = bind-eq-some (exponent_of value) _ h in
    let (numbers, _, h2) = bind-eq-some (fraction_of parts.0) _ h1 in
    let (_, h3) =
      return_none-eq-some
        (length numbers.0 == 0
          || not (all is_ascii_digit numbers.0)
          || not (all is_ascii_digit numbers.1))
        _ h2 in
    let (scale, _, h4) = bind-eq-some (scale_of (length numbers.1) parts.1) _ h3 in
    let (magnitude, m, same) = bind-eq-some (scaled (numbers.0 ++ numbers.1) scale) _ h4 in
    subst IsSafe (some-inj same) (
      signed-IsSafe negative magnitude
        ((scaled-IsBounded (numbers.0 ++ numbers.1) scale).bounded magnitude m))
