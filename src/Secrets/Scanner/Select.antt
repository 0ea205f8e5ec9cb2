-- ===== src/Secrets/Scanner/Select.antt =====
-- The merged ranges: in order and disjoint, and they cover what the candidates cover.
use contextforge_data_plane.Prelude.{
  ℕ, ◌≤◌, ◌<◌, Str, ◌≡◌, refl, ◌↔◌, ◌⊎◌, inl, inr, true, List, [], ◌∷◌, arith, All, Bool-cases,
  length, leb, leb→le, if◌then◌else◌, ltb,
}
use contextforge_data_plane.Secrets.Scanner.{
  MatchCandidate, is_char_boundary, absorb, select_from, select, sort_candidates,
}
use contextforge_data_plane.Secrets.Scanner.Sort.{
  StartsFrom, IsSorted, Covers, sort_candidates-All, sort_candidates-IsSorted,
  sort_candidates-Covers,
}

-- A range of whole characters inside the text.
pub record IsWithin (text : Str) (c : MatchCandidate) : Type 0 where
  pub ordered : c.start ≤ c.end
  pub bounded : c.end ≤ length text
  pub starts_char : is_char_boundary text c.start ≡ true
  pub ends_char : is_char_boundary text c.end ≡ true

-- Ranges inside the text, in order and without overlap, from offset `cursor` on.
abbrev pub Chain : Str → ℕ → List MatchCandidate → Type 0
Chain text cursor [] = Unit
Chain text cursor (m ∷ ms) = (cursor ≤ m.start) × IsWithin text m × Chain text m.end ms

absorb-IsWithin :
    (text : Str) (a b : MatchCandidate)
    → IsWithin text a
    → IsWithin text b
    → IsWithin text (absorb a b)
unfolding absorb
absorb-IsWithin text a b h k = ground arith

start-absorb : (a b : MatchCandidate) → (absorb a b).start ≡ a.start
unfolding absorb
start-absorb a b = refl

absorb_end : (a b : MatchCandidate) → (absorb a b).end ≡ (if ltb a.end b.end then b.end else a.end)
unfolding absorb
absorb_end a b = refl

select_from-Chain :
    (text : Str) (cursor : ℕ) (c : MatchCandidate) (cs : List MatchCandidate)
    → cursor ≤ c.start
    → IsWithin text c
    → StartsFrom c.start cs
    → IsSorted cs
    → All (IsWithin text) cs
    → Chain text cursor (select_from c cs)
unfolding select_from
select_from-Chain text cursor c [] lo w s o a = (lo, w, tt)
select_from-Chain text cursor c (d ∷ ds) lo w s o a = elim (Bool-cases (leb c.end d.start)) [
  | inl e ↦ rw e (lo, w, select_from-Chain text c.end d ds (leb→le _ _ e) a.0 o.0 o.1 a.1)
  | inr e ↦ rw e (
      select_from-Chain text cursor (absorb c d) ds (rw start-absorb lo)
        (absorb-IsWithin text c d w a.0) (rw start-absorb s.1) o.1 a.1)
]

pub select-Chain :
    (text : Str) (cs : List MatchCandidate)
    → IsSorted cs
    → All (IsWithin text) cs
    → Chain text 0 (select cs)
unfolding select
select-Chain text [] o a = tt
select-Chain text (c ∷ cs) o a = select_from-Chain text 0 c cs (omega arith) a.0 o.0 o.1 a.1

module _ (p : ℕ) where
  absorb-Covers :
      (c d : MatchCandidate)
      → c.start ≤ d.start
      → d.start ≤ c.end
      → (((absorb c d).start ≤ p) × (p < (absorb c d).end))
        ↔ (((c.start ≤ p) × (p < c.end)) ⊎ ((d.start ≤ p) × (p < d.end)))
  unfolding absorb
  absorb-Covers c d h k = ground arith

  select_from-Covers :
      (c : MatchCandidate) (cs : List MatchCandidate)
      → StartsFrom c.start cs
      → IsSorted cs
      → Covers p (select_from c cs) ↔ Covers p (c ∷ cs)
  unfolding select_from
  select_from-Covers c [] s o = ((λ h. h), (λ h. h))
  select_from-Covers c (d ∷ ds) s o = elim (Bool-cases (leb c.end d.start)) [
    | inl e ↦ rw e (ground (arith, select_from-Covers d ds o.0 o.1))
    | inr e ↦ rw e (
        ground (
          arith,
          absorb-Covers c d s.0 (ground arith),
          select_from-Covers (absorb c d) ds (rw start-absorb s.1) o.1,
        ))
  ]

  select-Covers : (cs : List MatchCandidate) → IsSorted cs → Covers p (select cs) ↔ Covers p cs
  unfolding select
  select-Covers [] o = ((λ h. h), (λ h. h))
  select-Covers (c ∷ cs) o = select_from-Covers c cs o.0 o.1

-- The merged ranges cover exactly the bytes that some candidate covers: no match is left in part,
-- and nothing else is taken.
pub select-sort-Covers :
    (p : ℕ) (cs : List MatchCandidate) → Covers p (select (sort_candidates cs)) ↔ Covers p cs
select-sort-Covers p cs =
    let chosen = select-Covers p (sort_candidates cs) (sort_candidates-IsSorted cs) in
    let sorted = sort_candidates-Covers p cs in
    ((λ h. sorted.0 (chosen.0 h)), (λ h. chosen.1 (sorted.1 h)))

pub select-sort-Chain :
    (text : Str) (cs : List MatchCandidate)
    → All (IsWithin text) cs
    → Chain text 0 (select (sort_candidates cs))
select-sort-Chain text cs a =
    select-Chain text (sort_candidates cs) (sort_candidates-IsSorted cs)
      (sort_candidates-All (IsWithin text) cs a)
