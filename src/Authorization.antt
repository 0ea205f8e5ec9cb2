-- ===== src/Authorization.antt =====
-- crates/contextforge-data-plane-lib/src/authorization/jwks: the keys that tokens are verified with, and the
-- authorization of a token. `jsonwebtoken` is a record of functions, K its decoding keys and A its
-- algorithms; the response of the key server is a sequence of chunks, each of which may fail.
pub mod Principal
pub mod Keys
pub mod Verified
mod Tests
use contextforge_data_plane.Prelude.{
  ℕ, ◌*◌, ◌-◌, Str, str, str_eq, Bool, true, false, not, ◌&&◌, ◌||◌, List, [], ◌∷◌, ◌++◌, Option,
  none, some, if◌then◌else◌, ltb, length, Result, ok, err, ok_or, ◌>>=◌, strip_prefix,
  eq_ignore_ascii_case,
}
use contextforge_data_plane.Prelude.Utf8.{is_utf8}
use contextforge_data_plane.Json.{Value}

pub data AlgorithmFamily : Type 0 where
  hmac : AlgorithmFamily
  rsa : AlgorithmFamily
  ec : AlgorithmFamily
  ed : AlgorithmFamily

abbrev pub same_family : AlgorithmFamily → AlgorithmFamily → Bool
same_family hmac hmac = true
same_family rsa rsa = true
same_family ec ec = true
same_family ed ed = true
same_family _ _ = false

pub data AuthorizationError : Type 0 where
  jwks_request : AuthorizationError
  jwks_response_too_large : AuthorizationError
  invalid_json : AuthorizationError
  invalid_key : AuthorizationError
  no_supported_keys : AuthorizationError
  insecure_jwks_url : AuthorizationError

pub record Header (A : Type 0) : Type 0 where
  pub alg : A
  pub kid : Option Str

-- What the code reads of a key of a key set: is its use for signatures, do its operations contain `verify`?
pub record Jwk (J : Type 0) : Type 0 where
  pub for_signature : Option Bool
  pub can_verify : Option Bool
  pub key_id : Option Str
  pub material : J

pub record VerificationKey (K : Type 0) : Type 0 where
  pub key_id : Option Str
  pub decoding_key : K

pub record Validation (A : Type 0) : Type 0 where
  pub alg : A
  pub required_spec_claims : List Str
  pub validate_aud : Bool
  pub validate_exp : Bool
  pub validate_nbf : Bool

-- `jsonwebtoken`, and `serde_json` on key sets.
pub record JwtCrate (A K J : Type 0) : Type 0 where
  pub key_family : K → AlgorithmFamily
  pub alg_family : A → AlgorithmFamily
  pub from_jwk : Jwk J → Option K
  pub decode_header : Str → Option (Header A)
  pub decode : Str → K → Validation A → Option Value
  pub read_jwk_set : Str → Option (List (Jwk J))

pub record Settings : Type 0 where
  pub validate_audience : Bool
  pub validate_expiry : Bool
  pub validate_not_before : Bool

abbrev pub jwks_max_response_bytes : ℕ
jwks_max_response_bytes = 1024 * 1024

-- Whether a response names a length above the limit.
abbrev pub check_length : Option ℕ → Result AuthorizationError (Unit {0})
check_length none = ok tt
check_length (some n) = if ltb jwks_max_response_bytes n then err jwks_response_too_large else ok tt

-- The body of a response, chunk by chunk, after what is read already: a chunk is `none` if it fails.
unfoldable pub read_body : Str → List (Option Str) → Result AuthorizationError Str
read_body body [] = ok body
read_body body (none ∷ chunks) = err jwks_request
read_body body (some chunk ∷ chunks) =
    let rest = read_body (body ++ chunk) chunks in
    if ltb (jwks_max_response_bytes - length body) (length chunk)
    then err jwks_response_too_large
    else rest

-- What the key server answers: no response, or one with a length that it names and the chunks of its body.
pub record Response : Type 0 where
  pub content_length : Option ℕ
  pub chunks : List (Option Str)

-- `Option::or`.
abbrev pub or_else : Option Value → Option Value → Option Value
or_else none rest = rest
or_else (some claims) rest = some claims

unfoldable pub is_none_or {ℓ} : {T : Type ℓ} → Option T → (T → Bool) → Bool
is_none_or none f = true
is_none_or (some x) f = f x

module _ {A K J : Type 0} (jwt : JwtCrate A K J) where
  unfoldable pub matches : Header A → VerificationKey K → Bool
  unfolding is_none_or
  matches header key =
      same_family (jwt.key_family key.decoding_key) (jwt.alg_family header.alg)
      && is_none_or header.kid
          (λ header_key_id. is_none_or key.key_id (λ key_id. str_eq key_id header_key_id))

  abbrev pub is_signing : AlgorithmFamily → Bool
  is_signing rsa = true
  is_signing ec = true
  is_signing _ = false

  -- A key that is not for signatures, or of another family, is passed over; one that cannot be read fails.
  unfoldable pub from_jwk : Jwk J → Result AuthorizationError (Option (VerificationKey K))
  unfolding is_none_or
  from_jwk jwk =
      let reading = do
        key ← ok_or invalid_key (jwt.from_jwk jwk)
        if not (is_signing (jwt.key_family key))
            then ok none
            else ok (some (record { key_id = jwk.key_id; decoding_key = key }))
      in if not (is_none_or jwk.for_signature (λ b. b)) || not (is_none_or jwk.can_verify (λ b. b))
        then ok none
        else reading

  abbrev pub push : Option (VerificationKey K) → List (VerificationKey K) → List (VerificationKey K)
  push none keys = keys
  push (some key) keys = key ∷ keys

  unfoldable pub read_keys : List (Jwk J) → Result AuthorizationError (List (VerificationKey K))
  unfolding from_jwk
  read_keys [] = ok []
  read_keys (jwk ∷ jwks) = do key ← from_jwk jwk; keys ← read_keys jwks; ok (push key keys)

  abbrev pub unless_empty :
      List (VerificationKey K) → Result AuthorizationError (List (VerificationKey K))
  unless_empty [] = err no_supported_keys
  unless_empty keys = ok keys

  unfoldable pub validated_json_web_keys :
      List (Jwk J) → Result AuthorizationError (List (VerificationKey K))
  unfolding read_keys
  validated_json_web_keys jwks = do keys ← read_keys jwks; unless_empty keys

  abbrev pub keys_of : List (Jwk J) → Result AuthorizationError (List (VerificationKey K))
  keys_of [] = ok []
  keys_of jwks = validated_json_web_keys jwks

  unfoldable pub fetch_jwks : Option Response → Result AuthorizationError (List (VerificationKey K))
  unfolding read_body
  fetch_jwks fetched = do
    response ← ok_or jwks_request fetched
    _ ← check_length response.content_length
    body ← read_body [] response.chunks
    jwks ← ok_or invalid_json (jwt.read_jwk_set body)
    keys_of jwks

  unfoldable pub validation : Settings → A → Validation A
  validation settings alg = record {
    alg = alg;
    required_spec_claims = [];
    validate_aud = settings.validate_audience;
    validate_exp = settings.validate_expiry;
    validate_nbf = settings.validate_not_before;
  }

  -- The claims by the first key that matches the header and verifies the token.
  unfoldable pub validate_with_keys :
      List (VerificationKey K) → Str → Header A → Validation A → Option Value
  validate_with_keys [] token header v = none
  validate_with_keys (key ∷ keys) token header v =
      let rest = validate_with_keys keys token header v in
      if matches header key then or_else (jwt.decode token key.decoding_key v) rest else rest

  unfoldable pub any_matches : Header A → List (VerificationKey K) → Bool
  any_matches header [] = false
  any_matches header (key ∷ keys) = matches header key || any_matches header keys

  abbrev pub after_fetch :
      Result AuthorizationError (List (VerificationKey K))
      → Option (List (VerificationKey K))
      → Str
      → Header A
      → Validation A
      → Option Value × Option (List (VerificationKey K))
  after_fetch (err _) cache token header v = (none, cache)
  after_fetch (ok keys) cache token header v = (validate_with_keys keys token header v, some keys)

  abbrev pub cache_serves : Option (List (VerificationKey K)) → Header A → Bool
  cache_serves none header = false
  cache_serves (some keys) header = any_matches header keys

  abbrev pub cached_keys : Option (List (VerificationKey K)) → List (VerificationKey K)
  cached_keys none = []
  cached_keys (some keys) = keys

  -- The cached keys are used if one of them matches the header; otherwise, the key server is asked, and its
  -- keys are cached. The cache is what it gives out at that time; beside the claims, what is in it then.
  unfoldable pub validate :
      Settings
      → Option Response
      → Option (List (VerificationKey K))
      → Str
      → Header A
      → Option Value × Option (List (VerificationKey K))
  unfolding any_matches fetch_jwks
  validate settings fetched cache token header =
      if cache_serves cache header
      then (
        validate_with_keys (cached_keys cache) token header (validation settings header.alg),
        cache,
      )
      else after_fetch (fetch_jwks fetched) cache token header (validation settings header.alg)

  unfoldable pub with_header :
      Settings
      → Option Response
      → Option (List (VerificationKey K))
      → Str
      → Option (Header A)
      → Option Value × Option (List (VerificationKey K))
  unfolding validate
  with_header settings fetched cache token none = (none, cache)
  with_header settings fetched cache token (some header) =
      validate settings fetched cache token header

  -- `authorize_token`.
  unfoldable pub authorize_token :
      Settings
      → Option Response
      → Option (List (VerificationKey K))
      → Str
      → Option Value × Option (List (VerificationKey K))
  unfolding with_header
  authorize_token settings fetched cache token =
      with_header settings fetched cache token (jwt.decode_header token)

  -- The token of `Bearer` that is UTF-8.
  abbrev pub bearer_token : Option Str → Option Str
  bearer_token none = none
  bearer_token (some token) = if is_utf8 token then some token else none

  unfoldable pub with_token :
      Settings
      → Option Response
      → Option (List (VerificationKey K))
      → Option Str
      → Option Value × Option (List (VerificationKey K))
  unfolding authorize_token
  with_token settings fetched cache none = (none, cache)
  with_token settings fetched cache (some token) = authorize_token settings fetched cache token

  unfoldable pub authorize :
      Settings
      → Option Response
      → Option (List (VerificationKey K))
      → Str
      → Option Value × Option (List (VerificationKey K))
  unfolding with_token
  authorize settings fetched cache value =
      with_token settings fetched cache (bearer_token (strip_prefix (str "Bearer ") value))

abbrev is_local : Option Str → (Str → Bool) → Bool
is_local none is_loopback = false
is_local (some host) is_loopback = eq_ignore_ascii_case host (str "localhost") || is_loopback host

-- The parts of a URL that are read: its scheme, its host, and is the host a loopback address?
unfoldable pub parse_jwks_url :
    (scheme : Str) (host : Option Str) (is_loopback : Str → Bool)
    → Result AuthorizationError (Unit {0})
parse_jwks_url scheme host is_loopback =
    let secure = str_eq scheme (str "https") in
    let local_http = str_eq scheme (str "http") && is_local host is_loopback in
    if not secure && not local_http then err insecure_jwks_url else ok tt
