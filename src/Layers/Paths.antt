-- ===== src/Layers/Paths.antt =====
-- The virtual host of a path.
use contextforge_data_plane.Prelude.{
  ◌-◌, Str, str, str_eq_refl, leb, ◌≡◌, refl, ap, Bool, true, Option, none, some, List, [], ◌∷◌,
  ◌++◌, ◌&&◌, if◌then◌else◌, length, take, drop, length-append, arith,
}
use contextforge_data_plane.Layers.{
  extract_virtual_host_id, servers_prefix, mcp_suffix, starts_with, ends_with, slice,
}

drop-length-append : {A : Type 0} (xs ys : List A) → drop (length xs) (xs ++ ys) ≡ ys
drop-length-append [] ys = refl
drop-length-append (x ∷ xs) ys = drop-length-append xs ys

take-length-append : {A : Type 0} (xs ys : List A) → take (length xs) (xs ++ ys) ≡ xs
take-length-append [] ys = refl
take-length-append (x ∷ xs) ys = ap (λ l. x ∷ l) (take-length-append xs ys)

length-suffixed : (id suffix : Str) → length (id ++ suffix) - length suffix ≡ length id
length-suffixed id suffix = rw length-append (omega arith)

leb-append :
    (xs ys : Str)
    → (leb (length xs) (length (xs ++ ys)) ≡ true) × (leb (length ys) (length (xs ++ ys)) ≡ true)
leb-append xs ys = rw length-append (ground arith, ground arith)

starts_with-append : (prefix s : Str) → starts_with prefix (prefix ++ s) ≡ true
starts_with-append prefix s = rw take-length-append (str_eq_refl prefix)

ends_with-append : (s suffix : Str) → ends_with suffix (s ++ suffix) ≡ true
ends_with-append s suffix =
    rw ((leb-append s suffix).1, length-suffixed s suffix, drop-length-append s suffix)
      (str_eq_refl suffix)

slice-append :
    (prefix id suffix : Str)
    → slice
        (length prefix)
        (length ((prefix ++ id) ++ suffix) - length suffix)
        ((prefix ++ id) ++ suffix)
      ≡ some id
slice-append prefix id suffix =
    rw
      (
        length-suffixed (prefix ++ id) suffix,
        (leb-append prefix id).0,
        (leb-append (prefix ++ id) suffix).0,
        take-length-append (prefix ++ id) suffix,
        drop-length-append prefix id,
      )
      refl

abbrev answer : Bool → Bool → Option Str → Option (Option Str)
answer b c o = if b && c then (elim o [ none ↦ none | some id ↦ some (some id) ]) else some none

answer-some :
    (b c : Bool) (o : Option Str) (id : Str)
    → b ≡ true
    → c ≡ true
    → o ≡ some id
    → answer b c o ≡ some (some id)
answer-some b c o id h k l = rw (h, k, l) refl

-- A path `/servers/<id>/mcp` names the virtual host `id`, whatever text that is, also an empty one or
-- one with slashes.
pub extract_virtual_host_id-servers :
    (id : Str) → extract_virtual_host_id ((servers_prefix ++ id) ++ mcp_suffix) ≡ some (some id)
unfolding extract_virtual_host_id str
extract_virtual_host_id-servers id =
    answer-some _ _ _ id (starts_with-append servers_prefix (id ++ mcp_suffix))
      (ends_with-append (servers_prefix ++ id) mcp_suffix)
      (slice-append servers_prefix id mcp_suffix)
