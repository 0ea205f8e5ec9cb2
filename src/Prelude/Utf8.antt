-- ===== src/Prelude/Utf8.antt =====
-- `str::from_utf8`: which byte strings are UTF-8.
use Prim.Native.Nat.{ℕ, zero, suc}
use mathlib.Core.Bool.{Bool, true, false, ◌&&◌}
use mathlib.Core.Option.{Option, none, some}
use mathlib.Core.List.{[], ◌∷◌}
use contextforge_data_plane.Prelude.Tests.{leb, ◌==◌, if◌then◌else◌}
use contextforge_data_plane.Prelude.Text.{Str, between}

-- How many bytes follow a lead byte, and the bounds of the first of them.
abbrev pub lead : ℕ → Option (ℕ × ℕ × ℕ)
lead b =
    if leb b 0x7f
    then some (0, 0, 0)
    else if between 0xc2 0xdf b
    then some (1, 0x80, 0xbf)
    else if b == 0xe0
    then some (2, 0xa0, 0xbf)
    else if b == 0xed
    then some (2, 0x80, 0x9f)
    else if between 0xe1 0xef b
    then some (2, 0x80, 0xbf)
    else if b == 0xf0
    then some (3, 0x90, 0xbf)
    else if between 0xf1 0xf3 b
    then some (3, 0x80, 0xbf)
    else if b == 0xf4
    then some (3, 0x80, 0x8f)
    else none

unfoldable pub utf8_from : ℕ → ℕ → ℕ → Str → Bool
utf8_from zero lo hi [] = true
utf8_from (suc n) lo hi [] = false
utf8_from zero lo hi (b ∷ s) = elim (lead b) [ none ↦ false | some (n, l, h) ↦ utf8_from n l h s ]
utf8_from (suc n) lo hi (b ∷ s) = between lo hi b && utf8_from n 0x80 0xbf s

abbrev pub is_utf8 : Str → Bool
is_utf8 s = utf8_from 0 0 0 s
