-- ===== src/Authorization/Tests.antt =====
-- A key server with one key, and the instances of the theorems.
use contextforge_data_plane.Prelude.{
  ◌≤◌, ◌≡◌, refl, Str, str, true, false, List, [], ◌∷◌, map, Option, none, some, err, length, All,
  inl,
}
use contextforge_data_plane.Json.{string}
use contextforge_data_plane.Authorization.{
  AlgorithmFamily, rsa, hmac, JwtCrate, Jwk, VerificationKey, Settings, Response, read_body,
  jwks_max_response_bytes, parse_jwks_url, insecure_jwks_url, cached_keys, authorize, matches,
  validated_json_web_keys, no_supported_keys,
}
use contextforge_data_plane.Authorization.Keys.{IsPublic, joined, read_body-le}
use contextforge_data_plane.Authorization.Verified.{
  IsVerified, authorize-IsVerified, authorize-cached_IsPublic,
}
use contextforge_data_plane.Prelude.{eq_ignore_ascii_case, str_eq}
use contextforge_data_plane.Prelude.{strip_prefix}
use contextforge_data_plane.Prelude.Utf8.{utf8_from}
use contextforge_data_plane.Authorization.{validate_with_keys}

abbrev jwk : Jwk AlgorithmFamily
jwk = record { for_signature = none; can_verify = none; key_id = some (str "k1"); material = rsa }

abbrev jwt : JwtCrate AlgorithmFamily AlgorithmFamily AlgorithmFamily
jwt = record {
  key_family = λ key. key;
  alg_family = λ alg. alg;
  from_jwk = λ jwk. some jwk.material;
  decode_header = λ token. some (record { alg = rsa; kid = some (str "k1") });
  decode = λ token key v. some (string token);
  read_jwk_set = λ body. some (jwk ∷ []);
}

abbrev settings : Settings
settings = record { validate_audience = false; validate_expiry = true; validate_not_before = true }

abbrev response : Response
response = record { content_length = none; chunks = some (str "{}") ∷ [] }

abbrev other_key : VerificationKey AlgorithmFamily
other_key = record { key_id = some (str "k0"); decoding_key = rsa }

abbrev cache : Option (List (VerificationKey AlgorithmFamily))
cache = some (other_key ∷ [])

-- No cached key has the key id of the token, so the key server is asked.
authorize-IsVerified_example :
    IsVerified jwt settings (some response) cache (str "Bearer token") (string (str "token"))
unfolding authorize IsPublic strip_prefix str utf8_from matches str_eq validated_json_web_keys
    validate_with_keys
authorize-IsVerified_example =
    authorize-IsVerified jwt settings (some response) cache (str "Bearer token") (inl refl, tt) refl

authorize-cached_IsPublic_example :
    All
      (IsPublic jwt)
      (cached_keys jwt (authorize jwt settings (some response) cache (str "Bearer token")).1)
unfolding IsPublic
authorize-cached_IsPublic_example =
    authorize-cached_IsPublic jwt settings (some response) cache (str "Bearer token") (inl refl, tt)

read_body-le_example :
    (length (str "ab") ≤ jwks_max_response_bytes)
    × ((received : List Str) × (some (str "a") ∷ some (str "b") ∷ [] ≡ map some received)
        × (str "ab" ≡ joined received))
unfolding read_body str
read_body-le_example = read_body-le (some (str "a") ∷ some (str "b") ∷ []) {body = str "ab"} refl

-- A shared secret is no key to verify with.
hmac_refused :
    validated_json_web_keys jwt (record jwk { material = hmac } ∷ []) ≡ err no_supported_keys
unfolding validated_json_web_keys
hmac_refused = refl

http_refused :
    parse_jwks_url (str "http") (some (str "example.com")) (λ host. false) ≡ err insecure_jwks_url
unfolding parse_jwks_url str_eq str eq_ignore_ascii_case
http_refused = refl
