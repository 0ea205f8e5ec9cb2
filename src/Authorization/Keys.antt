-- ===== src/Authorization/Keys.antt =====
-- The body of a key set and its keys, and the key that verifies a token.
use contextforge_data_plane.Prelude.{
  ◌-◌, ◌≤◌, ◌≡◌, refl, sym, ap, ◌∙◌, subst, Str, Bool, true, false, not, ◌||◌, List, [], ◌∷◌, ◌++◌,
  Option, none, some, ◌⊎◌, inl, inr, Bool-cases, if◌then◌else◌, ltb, length, length-append, Result,
  ok, ok_or, ok-inj, bind-eq-ok, return_err-eq-ok, append-nil, append_assoc, map, arith, All,
}
use mathlib.Core.List.{Mem, mem-cons_self, mem-cons_of_mem}
use contextforge_data_plane.Prelude.Maybe.{some-inj}
use contextforge_data_plane.Json.{Value}
use contextforge_data_plane.Authorization.{
  AlgorithmFamily, rsa, ec, Header, Jwk, VerificationKey, Validation, JwtCrate, AuthorizationError,
  invalid_key, or_else, jwks_request, invalid_json, check_length, Response, read_body,
  jwks_max_response_bytes, is_none_or, is_signing, matches, from_jwk, push, read_keys,
  validated_json_web_keys, keys_of, fetch_jwks, validate_with_keys, unless_empty,
}

pub joined : List Str → Str
joined [] = []
joined (chunk ∷ chunks) = chunk ++ joined chunks

-- A body that is read on: its chunks, none of which failed.
record Reads (body : Str) (chunks : List (Option Str)) (all : Str) : Type 0 where
  received : List Str
  none_failed : chunks ≡ map some received
  whole : all ≡ body ++ joined received
  bounded : length all ≤ jwks_max_response_bytes

read_body-Reads :
    (body : Str) (chunks : List (Option Str)) {all : Str}
    → length body ≤ jwks_max_response_bytes
    → read_body body chunks ≡ ok all
    → Reads body chunks all
unfolding read_body joined
read_body-Reads body [] n h =
    subst (Reads body []) (ok-inj h)
      (record { received = []; none_failed = refl; whole = sym (append-nil body); bounded = n })
read_body-Reads body (none ∷ chunks) n h = absurd cc
read_body-Reads body (some chunk ∷ chunks) n h =
    let (fits, read) =
      return_err-eq-ok (ltb (jwks_max_response_bytes - length body) (length chunk)) _
        (read_body (body ++ chunk) chunks) h in
    let rest =
      read_body-Reads (body ++ chunk) chunks (rw (length-append body chunk) (ground arith)) read in
    record {
      received = chunk ∷ rest.received;
      none_failed = ap (◌∷◌ (some chunk)) rest.none_failed;
      whole = rest.whole ∙ append_assoc body chunk _;
      bounded = rest.bounded;
    }

-- A body that is read from the key server has at most 1 MiB, whatever length the response names, and is the
-- whole of what was sent, of which no chunk failed.
pub read_body-le :
    (chunks : List (Option Str)) {body : Str}
    → read_body [] chunks ≡ ok body
    → (length body ≤ jwks_max_response_bytes)
      × ((received : List Str) × (chunks ≡ map some received) × (body ≡ joined received))
read_body-le chunks h =
    let read = read_body-Reads [] chunks (omega arith) h in
    (read.bounded, (read.received, read.none_failed, read.whole))

or_else-eq-some :
    (o rest : Option Value) {claims : Value}
    → or_else o rest ≡ some claims
    → (o ≡ some claims) ⊎ (rest ≡ some claims)
or_else-eq-some none rest h = inr h
or_else-eq-some (some c) rest h = inl h

module _ {A K J : Type 0} (jwt : JwtCrate A K J) where
  -- A key of a family that verifies with a public key.
  unfoldable pub IsPublic : VerificationKey K → Type 0
  IsPublic key = (jwt.key_family key.decoding_key ≡ rsa) ⊎ (jwt.key_family key.decoding_key ≡ ec)

  is_signing-cases : (f : AlgorithmFamily) → is_signing jwt f ≡ true → (f ≡ rsa) ⊎ (f ≡ ec)
  is_signing-cases rsa h = inl refl
  is_signing-cases ec h = inr refl
  is_signing-cases _ h = absurd cc

  return_ok-eq-ok :
      (c : Bool) (m : Result AuthorizationError (Option (VerificationKey K)))
      {k : VerificationKey K}
      → (if c then ok none else m) ≡ ok (some k)
      → (c ≡ false) × (m ≡ ok (some k))
  return_ok-eq-ok true m h = absurd cc
  return_ok-eq-ok false m h = (refl, h)

  from_jwk-IsPublic :
      (jwk : Jwk J) {key : VerificationKey K} → from_jwk jwt jwk ≡ ok (some key) → IsPublic key
  unfolding from_jwk IsPublic
  from_jwk-IsPublic jwk h =
      let (_, h1) =
        return_ok-eq-ok
          (not (is_none_or jwk.for_signature (λ b. b)) || not (is_none_or jwk.can_verify (λ b. b)))
          _ h in
      let (key, _, h2) = bind-eq-ok (ok_or invalid_key (jwt.from_jwk jwk)) _ h1 in
      let (signs, made) = return_ok-eq-ok (not (is_signing jwt (jwt.key_family key))) _ h2 in
      subst IsPublic (some-inj (ok-inj made)) (is_signing-cases (jwt.key_family key) (ground arith))

  push-IsPublic :
      (key : Option (VerificationKey K)) (keys : List (VerificationKey K))
      → ((k : VerificationKey K) → key ≡ some k → IsPublic k)
      → All IsPublic keys
      → All IsPublic (push jwt key keys)
  push-IsPublic none keys f h = h
  push-IsPublic (some k) keys f h = (f k refl, h)

  read_keys-IsPublic :
      (jwks : List (Jwk J)) {keys : List (VerificationKey K)}
      → read_keys jwt jwks ≡ ok keys
      → All IsPublic keys
  unfolding read_keys
  read_keys-IsPublic [] h = subst (All IsPublic) (ok-inj h) tt
  read_keys-IsPublic (jwk ∷ jwks) h =
      let (key, e, h1) = bind-eq-ok (from_jwk jwt jwk) _ h in
      let (rest, r, made) = bind-eq-ok (read_keys jwt jwks) _ h1 in
      subst (All IsPublic) (ok-inj made) (
        push-IsPublic key rest (λ k f. from_jwk-IsPublic jwk (e ∙ ap ok f))
          (read_keys-IsPublic jwks r))

  validated-IsPublic :
      (jwks : List (Jwk J)) {keys : List (VerificationKey K)}
      → keys_of jwt jwks ≡ ok keys
      → All IsPublic keys
  unfolding validated_json_web_keys
  validated-IsPublic [] h = subst (All IsPublic) (ok-inj h) tt
  validated-IsPublic (jwk ∷ jwks) h =
      let (keys, read, made) = bind-eq-ok (read_keys jwt (jwk ∷ jwks)) _ h in
      nonempty-IsPublic keys (read_keys-IsPublic (jwk ∷ jwks) read) made
    where
      nonempty-IsPublic :
          (keys : List (VerificationKey K)) {kept : List (VerificationKey K)}
          → All IsPublic keys
          → unless_empty jwt keys ≡ ok kept
          → All IsPublic kept
      nonempty-IsPublic [] p e = absurd cc
      nonempty-IsPublic (k ∷ ks) p e = subst (All IsPublic) (ok-inj e) p

  pub fetch_jwks-IsPublic :
      (fetched : Option Response) {keys : List (VerificationKey K)}
      → fetch_jwks jwt fetched ≡ ok keys
      → All IsPublic keys
  unfolding fetch_jwks
  fetch_jwks-IsPublic fetched h =
      let (response, _, h1) = bind-eq-ok (ok_or jwks_request fetched) _ h in
      let (_, _, h2) = bind-eq-ok (check_length response.content_length) _ h1 in
      let (body, _, h3) = bind-eq-ok (read_body [] response.chunks) _ h2 in
      let (jwks, _, h4) = bind-eq-ok (ok_or invalid_json (jwt.read_jwk_set body)) _ h3 in
      validated-IsPublic jwks h4

  -- The key that verified a token, among keys, all of which are public.
  pub record Verifies (keys : List (VerificationKey K)) (token : Str) (header : Header A)
      (v : Validation A) (claims : Value) : Type 0 where
    pub key : VerificationKey K
    pub known : Mem key keys
    pub matching : matches jwt header key ≡ true
    pub public : IsPublic key
    pub decoded : jwt.decode token key.decoding_key v ≡ some claims

  later-Verifies :
      {keys : List (VerificationKey K)} {token : Str} {header : Header A} {v : Validation A}
      {claims : Value} (other : VerificationKey K)
      → Verifies keys token header v claims
      → Verifies (other ∷ keys) token header v claims
  later-Verifies other h = record {
    key = h.key;
    known = mem-cons_of_mem other h.known;
    matching = h.matching;
    public = h.public;
    decoded = h.decoded;
  }

  pub validate_with_keys-Verifies :
      (keys : List (VerificationKey K)) (token : Str) (header : Header A) (v : Validation A)
      (claims : Value)
      → All IsPublic keys
      → validate_with_keys jwt keys token header v ≡ some claims
      → Verifies keys token header v claims
  unfolding validate_with_keys
  validate_with_keys-Verifies [] token header v claims p h = absurd cc
  validate_with_keys-Verifies (key ∷ keys) token header v claims p h =
      elim (Bool-cases (matches jwt header key)) [
        | inr e ↦ later-Verifies key (
            validate_with_keys-Verifies keys token header v claims p.1 (
              subst
                (λ b.
                  (if b
                    then or_else (jwt.decode token key.decoding_key v)
                        (validate_with_keys jwt keys token header v)
                    else validate_with_keys jwt keys token header v)
                  ≡ some claims)
                e h))
        | inl e ↦
            let tried =
              subst
                (λ b.
                  (if b
                    then or_else (jwt.decode token key.decoding_key v)
                        (validate_with_keys jwt keys token header v)
                    else validate_with_keys jwt keys token header v)
                  ≡ some claims)
                e h in
            elim (or_else-eq-some (jwt.decode token key.decoding_key v) _ tried) [
              | inl decoded ↦ record {
                key = key;
                known = mem-cons_self;
                matching = e;
                public = p.0;
                decoded = decoded;
              }
              | inr rest ↦
                  later-Verifies key
                    (validate_with_keys-Verifies keys token header v claims p.1 rest)
            ]
      ]
