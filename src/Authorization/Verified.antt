-- ===== src/Authorization/Verified.antt =====
-- What a token that is authorized was verified with.
use contextforge_data_plane.Prelude.{
  ◌≡◌, refl, ap, subst, Str, str, Bool, true, false, List, Option, none, some, ◌⊎◌, inl, inr,
  Bool-cases, if◌then◌else◌, Result, ok, err, All, strip_prefix,
}
use contextforge_data_plane.Prelude.Utf8.{is_utf8}
use contextforge_data_plane.Prelude.Maybe.{some-inj}
use contextforge_data_plane.Json.{Value}
use contextforge_data_plane.Authorization.{
  Header, VerificationKey, JwtCrate, Settings, AuthorizationError, Response, fetch_jwks, validation,
  after_fetch, validate, authorize_token, bearer_token, authorize, cache_serves, cached_keys,
  with_header, with_token,
}
use contextforge_data_plane.Authorization.Keys.{
  IsPublic, Verifies, fetch_jwks-IsPublic, validate_with_keys-Verifies,
}

module _ {A K J : Type 0} (jwt : JwtCrate A K J) (settings : Settings) (fetched : Option Response)
    (cache : Option (List (VerificationKey K))) where
  -- What makes an authorization: a bearer token in UTF-8, with a header, verified by a public key that
  -- matches the header, cached or among those that the key server answers.
  pub record IsVerified (value : Str) (claims : Value) : Type 0 where
    pub token : Str
    pub bearer : strip_prefix (str "Bearer ") value ≡ some token
    pub text : is_utf8 token ≡ true
    pub header : Header A
    pub decoded : jwt.decode_header token ≡ some header
    pub keys : List (VerificationKey K)
    pub origin : (cache ≡ some keys) ⊎ (fetch_jwks jwt fetched ≡ ok keys)
    pub verified : Verifies jwt keys token header (validation jwt settings header.alg) claims

  chosen :
      {R : Type 0} (b : Bool) (x y : Option Value × R) {claims : Value}
      → (if b then x else y).0 ≡ some claims
      → ((b ≡ true) × (x.0 ≡ some claims)) ⊎ (y.0 ≡ some claims)
  chosen true x y h = inl (refl, h)
  chosen false x y h = inr h

  serving :
      (o : Option (List (VerificationKey K))) (header : Header A)
      → cache_serves jwt o header ≡ true
      → o ≡ some (cached_keys jwt o)
  serving none header h = absurd cc
  serving (some keys) header h = refl

  -- Claims that keys of the cache or of the key server give.
  record Given (token : Str) (header : Header A) (claims : Value) : Type 0 where
    keys : List (VerificationKey K)
    origin : (cache ≡ some keys) ⊎ (fetch_jwks jwt fetched ≡ ok keys)
    verified : Verifies jwt keys token header (validation jwt settings header.alg) claims

  fetched-Given :
      (r : Result AuthorizationError (List (VerificationKey K))) (token : Str) (header : Header A)
      {claims : Value}
      → fetch_jwks jwt fetched ≡ r
      → (after_fetch jwt r cache token header (validation jwt settings header.alg)).0 ≡ some claims
      → Given token header claims
  fetched-Given (err e) token header f h = absurd cc
  fetched-Given (ok keys) token header f h = record {
    keys = keys;
    origin = inr f;
    verified =
        validate_with_keys-Verifies jwt keys token header _ _ (fetch_jwks-IsPublic jwt fetched f) h;
  }

  validate-Given :
      (token : Str) (header : Header A) {claims : Value}
      → All (IsPublic jwt) (cached_keys jwt cache)
      → (validate jwt settings fetched cache token header).0 ≡ some claims
      → Given token header claims
  unfolding validate
  validate-Given token header p h = elim (chosen (cache_serves jwt cache header) _ _ h) [
    | inl (serves, found) ↦ record {
      keys = cached_keys jwt cache;
      origin = inl (serving cache header serves);
      verified = validate_with_keys-Verifies jwt (cached_keys jwt cache) token header _ _ p found;
    }
    | inr asked ↦ fetched-Given (fetch_jwks jwt fetched) token header refl asked
  ]

  header-IsVerified :
      (value token : Str) (header : Option (Header A)) {claims : Value}
      → strip_prefix (str "Bearer ") value ≡ some token
      → is_utf8 token ≡ true
      → jwt.decode_header token ≡ header
      → All (IsPublic jwt) (cached_keys jwt cache)
      → (with_header jwt settings fetched cache token header).0 ≡ some claims
      → IsVerified value claims
  unfolding with_header
  header-IsVerified value token none b u d p h = absurd cc
  header-IsVerified value token (some header) b u d p h =
      let given = validate-Given token header p h in
      record {
        token = token;
        bearer = b;
        text = u;
        header = header;
        decoded = d;
        keys = given.keys;
        origin = given.origin;
        verified = given.verified;
      }

  bearer_token-eq-some :
      (o : Option Str) {token : Str}
      → bearer_token jwt o ≡ some token
      → (o ≡ some token) × (is_utf8 token ≡ true)
  bearer_token-eq-some none h = absurd cc
  bearer_token-eq-some (some t) {token} h = elim (Bool-cases (is_utf8 t)) [
    | inl e ↦
        let same = some-inj (subst (λ b. (if b then some t else none) ≡ some token) e h) in
        (ap some same, subst (λ x. is_utf8 x ≡ true) same e)
    | inr e ↦ absurd (let f = subst (λ b. (if b then some t else none) ≡ some token) e h in cc)
  ]

  token-IsVerified :
      (value : Str) (token : Option Str) {claims : Value}
      → bearer_token jwt (strip_prefix (str "Bearer ") value) ≡ token
      → All (IsPublic jwt) (cached_keys jwt cache)
      → (with_token jwt settings fetched cache token).0 ≡ some claims
      → IsVerified value claims
  unfolding with_token authorize_token
  token-IsVerified value none b p h = absurd cc
  token-IsVerified value (some token) b p h =
      let (bearer, text) = bearer_token-eq-some _ b in
      header-IsVerified value token (jwt.decode_header token) bearer text refl p h

  -- If the cached keys are public keys, then a token is authorized only if it is the UTF-8 text of a bearer
  -- value, and a cached key or one of those that the key server answers verifies it: a key with a public
  -- key's algorithm family, RSA or EC, that matches the family and the key id of the token's header.
  pub authorize-IsVerified :
      (value : Str) {claims : Value}
      → All (IsPublic jwt) (cached_keys jwt cache)
      → (authorize jwt settings fetched cache value).0 ≡ some claims
      → IsVerified value claims
  unfolding authorize
  authorize-IsVerified value p h =
      token-IsVerified value (bearer_token jwt (strip_prefix (str "Bearer ") value)) refl p h

  -- The cache after a request holds public keys.
  record Keeps (result : Option Value × Option (List (VerificationKey K))) : Type 0 where
    kept : All (IsPublic jwt) (cached_keys jwt result.1)

  fetched-Keeps :
      (r : Result AuthorizationError (List (VerificationKey K))) (token : Str) (header : Header A)
      → fetch_jwks jwt fetched ≡ r
      → All (IsPublic jwt) (cached_keys jwt cache)
      → Keeps (after_fetch jwt r cache token header (validation jwt settings header.alg))
  fetched-Keeps (err e) token header f p = record { kept = p }
  fetched-Keeps (ok keys) token header f p = record { kept = fetch_jwks-IsPublic jwt fetched f }

  header-Keeps :
      (token : Str) (header : Option (Header A))
      → All (IsPublic jwt) (cached_keys jwt cache)
      → Keeps (with_header jwt settings fetched cache token header)
  unfolding with_header validate
  header-Keeps token none p = record { kept = p }
  header-Keeps token (some header) p = elim (Bool-cases (cache_serves jwt cache header)) [
    | inl e ↦ rw e (record { kept = p })
    | inr e ↦ rw e (fetched-Keeps (fetch_jwks jwt fetched) token header refl p)
  ]

  token-Keeps :
      (token : Option Str)
      → All (IsPublic jwt) (cached_keys jwt cache)
      → Keeps (with_token jwt settings fetched cache token)
  unfolding with_token authorize_token
  token-Keeps none p = record { kept = p }
  token-Keeps (some token) p = header-Keeps token (jwt.decode_header token) p

  -- If the cached keys are public keys, then they are after a token is authorized or rejected.
  pub authorize-cached_IsPublic :
      (value : Str)
      → All (IsPublic jwt) (cached_keys jwt cache)
      → All (IsPublic jwt) (cached_keys jwt (authorize jwt settings fetched cache value).1)
  unfolding authorize
  authorize-cached_IsPublic value p =
      (token-Keeps (bearer_token jwt (strip_prefix (str "Bearer ") value)) p).kept
