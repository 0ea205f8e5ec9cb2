-- ===== src/Config/Tests.antt =====
-- A configuration with mTLS, and the instance of the theorem.
use contextforge_data_plane.Prelude.{◌≡◌, refl, str, str_eq, true, [], ◌∷◌, none, some, ok, err}
use contextforge_data_plane.Config.{
  mtls, mtls_only, RedisConfig, mtls_config, RedisOptions, System, redis_config, redis_client,
  UpstreamTransportConfig, upstream_client,
}
use contextforge_data_plane.Config.Secure.{Secured, redis_config-Secured}

-- Every file holds its own path, which is one certificate; `key` is the private key.
abbrev system : System
system = record {
  read_file = λ path. ok path;
  certificates = λ bytes. ok (bytes ∷ []);
  is_private_key = λ bytes. str_eq bytes (str "key");
  check_authority = λ authority. ok tt;
  identity_of = λ bytes. ok bytes;
  bundle_of = λ bytes. ok (bytes ∷ []);
}

abbrev options : RedisOptions
options = record {
  redis_address = str "redis";
  redis_port = 6379;
  redis_mode = mtls;
  redis_tls_trust_bundle = some (str "ca");
  redis_tls_client_certificate = some (str "cert");
  redis_tls_client_private_key = some (str "key");
}

abbrev config : RedisConfig
config = mtls_config (str "redis") 6379 (str "ca") (str "cert") (str "key")

redis_config-Secured_example : Secured system mtls options (redis_client config)
unfolding redis_config str_eq str
redis_config-Secured_example = redis_config-Secured system options {config = config} refl

abbrev upstream : UpstreamTransportConfig
upstream = record {
  upstream_connection_mode = some mtls_only;
  upstream_private_key = none;
  upstream_certificate = some (str "cert");
  upstream_trust_bundle = none;
}

-- mTLS without a private key is no client, not one without an identity.
missing_key : upstream_client system upstream ≡ err (str "Invalid/missing configuration")
unfolding upstream_client
missing_key = refl

-- Without a mode, only HTTPS is allowed.
default_https :
    upstream_client system (record upstream { upstream_connection_mode = none })
    ≡ ok (record { https_only = true; identity = none; certificates = [] })
unfolding upstream_client
default_https = refl
