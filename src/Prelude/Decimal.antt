-- ===== src/Prelude/Decimal.antt =====
-- `u64` as `format!("{}")` prints it.
use Prim.Native.Nat.{ℕ, zero, suc, ◌+◌, ◌-◌, ◌*◌, ◌/◌, ◌%◌, ◌^◌, ◌<◌}
use mathlib.Core.Path.{◌≡◌, sym, ap, ◌∙◌}
use mathlib.Core.Logic.{inl, inr}
use mathlib.Core.List.{[], ◌∷◌}
use native.Mathlib.Omega.{arith}
use contextforge_data_plane.Prelude.Tests.{ltb, if◌then◌else◌, Bool-cases}
use contextforge_data_plane.Prelude.Text.{Str}

-- The digits by at most as many divisions as there is fuel, before a text.
unfoldable digits : ℕ → ℕ → Str → Str
digits zero n rest = (b'0' + n % 10) ∷ rest
digits (suc fuel) n rest =
    let more = digits fuel (n / 10) ((b'0' + n % 10) ∷ rest) in
    if ltb n 10 then (b'0' + n) ∷ rest else more

-- 19 divisions are enough for 20 digits.
unfoldable pub decimal : ℕ → Str
unfolding digits
decimal n = digits 19 n []

-- The number that a text of digits stands for, after a number.
unfoldable pub read_digits : ℕ → Str → ℕ
read_digits n [] = n
read_digits n (b ∷ s) = read_digits (n * 10 + (b - b'0')) s

read_digits-digits :
    (fuel n : ℕ) (rest : Str)
    → n < 10 ^ (suc fuel)
    → read_digits 0 (digits fuel n rest) ≡ read_digits n rest
unfolding digits read_digits
read_digits-digits zero n rest h = ap (λ k. read_digits k rest) (omega arith)
read_digits-digits (suc fuel) n rest h = elim (Bool-cases (ltb n 10)) [
  | inl small ↦ rw small (ap (λ k. read_digits k rest) (omega arith))
  | inr large ↦ rw large (
      read_digits-digits fuel (n / 10) ((b'0' + n % 10) ∷ rest) (omega arith)
      ∙ ap (λ k. read_digits k rest) (omega arith))
]

pub read_digits-decimal : (n : ℕ) → n < 2 ^ 64 → read_digits 0 (decimal n) ≡ n
unfolding decimal read_digits
read_digits-decimal n h = read_digits-digits 19 n [] (omega arith)

-- Different numbers print differently.
pub decimal-inj : (n k : ℕ) → n < 2 ^ 64 → k < 2 ^ 64 → decimal n ≡ decimal k → n ≡ k
decimal-inj n k hn hk e =
    sym (read_digits-decimal n hn) ∙ ap (read_digits 0) e ∙ read_digits-decimal k hk
