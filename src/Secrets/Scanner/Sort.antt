-- ===== src/Secrets/Scanner/Sort.antt =====
-- The sort of the candidates: it keeps them and orders them by their start.
use native.Mathlib.Nat.{le_trans}
use contextforge_data_plane.Prelude.{
  ℕ, ◌≤◌, ◌<◌, ◌≡◌, ◌↔◌, ◌⊎◌, inl, inr, true, false, List, [], ◌∷◌, arith, All, Bool-cases,
}
use contextforge_data_plane.Secrets.Scanner.{
  MatchCandidate, compare_candidates, is_gt, insert_sorted, sort_candidates,
}

abbrev pub StartsFrom : ℕ → List MatchCandidate → Type 0
StartsFrom lo cs = All (λ c. lo ≤ c.start) cs

abbrev pub IsSorted : List MatchCandidate → Type 0
IsSorted [] = Unit
IsSorted (c ∷ cs) = StartsFrom c.start cs × IsSorted cs

-- The byte at offset `p` lies in one of the ranges.
abbrev pub Covers : ℕ → List MatchCandidate → Type 0
Covers p [] = ⊥
Covers p (c ∷ cs) = ((c.start ≤ p) × (p < c.end)) ⊎ Covers p cs

pub StartsFrom-le :
    (lo hi : ℕ) (cs : List MatchCandidate) → lo ≤ hi → StartsFrom hi cs → StartsFrom lo cs
StartsFrom-le lo hi [] h k = tt
StartsFrom-le lo hi (c ∷ cs) h k = (le_trans h k.0, StartsFrom-le lo hi cs h k.1)

starts_of_gt : (c d : MatchCandidate) → is_gt (compare_candidates c d) ≡ true → d.start ≤ c.start
unfolding compare_candidates
starts_of_gt c d h = ground arith

starts_of_le : (c d : MatchCandidate) → is_gt (compare_candidates c d) ≡ false → c.start ≤ d.start
unfolding compare_candidates
starts_of_le c d h = ground arith

module _ {κ} (P : MatchCandidate → Type κ) where
  insert_sorted-All :
      (c : MatchCandidate) (ds : List MatchCandidate) → P c → All P ds → All P (insert_sorted c ds)
  unfolding insert_sorted
  insert_sorted-All c [] h k = (h, tt)
  insert_sorted-All c (d ∷ ds) h k = elim (Bool-cases (is_gt (compare_candidates c d))) [
    | inl e ↦ rw e (k.0, insert_sorted-All c ds h k.1)
    | inr e ↦ rw e (h, k)
  ]

  pub sort_candidates-All : (cs : List MatchCandidate) → All P cs → All P (sort_candidates cs)
  unfolding sort_candidates
  sort_candidates-All [] h = tt
  sort_candidates-All (c ∷ cs) h =
      insert_sorted-All c (sort_candidates cs) h.0 (sort_candidates-All cs h.1)

insert_sorted-IsSorted :
    (c : MatchCandidate) (ds : List MatchCandidate) → IsSorted ds → IsSorted (insert_sorted c ds)
unfolding insert_sorted
insert_sorted-IsSorted c [] h = (tt, tt)
insert_sorted-IsSorted c (d ∷ ds) h = elim (Bool-cases (is_gt (compare_candidates c d))) [
  | inl e ↦ rw e (
    insert_sorted-All (λ x. d.start ≤ x.start) c ds (starts_of_gt c d e) h.0,
    insert_sorted-IsSorted c ds h.1,
  )
  | inr e ↦
      let first = starts_of_le c d e in
      rw e ((first, StartsFrom-le c.start d.start ds first h.0), h)
]

pub sort_candidates-IsSorted : (cs : List MatchCandidate) → IsSorted (sort_candidates cs)
unfolding sort_candidates
sort_candidates-IsSorted [] = tt
sort_candidates-IsSorted (c ∷ cs) =
    insert_sorted-IsSorted c (sort_candidates cs) (sort_candidates-IsSorted cs)

module _ (p : ℕ) where
  insert_sorted-Covers :
      (c : MatchCandidate) (ds : List MatchCandidate)
      → Covers p (insert_sorted c ds) ↔ Covers p (c ∷ ds)
  unfolding insert_sorted
  insert_sorted-Covers c [] = ((λ h. h), (λ h. h))
  insert_sorted-Covers c (d ∷ ds) = elim (Bool-cases (is_gt (compare_candidates c d))) [
    | inl e ↦ rw e (ground (arith, insert_sorted-Covers c ds))
    | inr e ↦ rw e ((λ h. h), (λ h. h))
  ]

  pub sort_candidates-Covers :
      (cs : List MatchCandidate) → Covers p (sort_candidates cs) ↔ Covers p cs
  unfolding sort_candidates
  sort_candidates-Covers [] = ((λ h. h), (λ h. h))
  sort_candidates-Covers (c ∷ cs) =
      ground (arith, insert_sorted-Covers c (sort_candidates cs), sort_candidates-Covers cs)
