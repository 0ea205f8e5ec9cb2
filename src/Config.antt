-- ===== src/Config.antt =====
-- crates/contextforge-data-plane-lib/src/common/config.rs: the connection to Redis and the client for backends,
-- from the options of the command line. The file system, the readers of certificates and keys, and the
-- parser of an authority are a record of functions; their errors are texts.
pub mod Secure
mod Tests
use contextforge_data_plane.Prelude.{
  ℕ, Str, str, Bool, true, false, List, [], ◌∷◌, ◌++◌, Option, none, some, Result, ok, err, ok_or,
  ◌>>=◌, if◌then◌else◌,
}
use contextforge_data_plane.Prelude.Decimal.{decimal}

pub data RedisConnectionMode : Type 0 where
  plain_text : RedisConnectionMode
  tls : RedisConnectionMode
  mtls : RedisConnectionMode

pub data RedisConfig : Type 0 where
  plain_text_config : (host : Str) (port : ℕ) → RedisConfig
  tls_config : (host : Str) (port : ℕ) (trust_bundle : Str) → RedisConfig
  mtls_config : (host : Str) (port : ℕ) (trust_bundle client_cert client_key : Str) → RedisConfig

-- The options for Redis.
pub record RedisOptions : Type 0 where
  pub redis_address : Str
  pub redis_port : ℕ
  pub redis_mode : RedisConnectionMode
  pub redis_tls_trust_bundle : Option Str
  pub redis_tls_client_certificate : Option Str
  pub redis_tls_client_private_key : Option Str

-- What the code uses of the system: a file's bytes, the certificates in a text, whether a text is a PKCS#8
-- key, an identity and a bundle of certificates for `reqwest`, and the check of an authority.
pub record System : Type 0 where
  pub read_file : Str → Result Str Str
  pub certificates : Str → Result Str (List Str)
  pub is_private_key : Str → Bool
  pub check_authority : Str → Result Str (Unit {0})
  pub identity_of : Str → Result Str Str
  pub bundle_of : Str → Result Str (List Str)

-- `{:?}` of a mode.
abbrev mode_name : RedisConnectionMode → Str
mode_name plain_text = str "PlainText"
mode_name tls = str "Tls"
mode_name mtls = str "Mtls"

module _ (system : System) where
  abbrev pub some_certificates : Str → List Str → Result Str Str
  some_certificates bytes [] = err (str "No certificates provided")
  some_certificates bytes (_ ∷ _) = ok bytes

  unfoldable pub validate_certs : Str → Result Str Str
  validate_certs path = do
    bytes ← system.read_file path
    certs ← system.certificates bytes
    some_certificates bytes certs

  unfoldable pub validate_key : Str → Result Str Str
  validate_key path = do
    bytes ← system.read_file path
    if system.is_private_key bytes then ok bytes else err (str "Private key is invalid")

  abbrev pub required : Str → RedisConnectionMode → Option Str → Result Str Str
  required what mode = ok_or (what ++ str " is required for Redis " ++ mode_name mode)

  unfoldable pub config_for : RedisConnectionMode → RedisOptions → Result Str RedisConfig
  unfolding validate_certs validate_key
  config_for plain_text options = ok (plain_text_config options.redis_address options.redis_port)
  config_for tls options = do
    path ← required (str "Trust bundle") tls options.redis_tls_trust_bundle
    trust_bundle ← validate_certs path
    ok (tls_config options.redis_address options.redis_port trust_bundle)
  config_for mtls options = do
    path ← required (str "Trust bundle") mtls options.redis_tls_trust_bundle
    trust_bundle ← validate_certs path
    certificate ← required (str "Client certificate") mtls options.redis_tls_client_certificate
    client_cert ← validate_certs certificate
    key ← required (str "Client key") mtls options.redis_tls_client_private_key
    client_key ← validate_key key
    ok (mtls_config options.redis_address options.redis_port trust_bundle client_cert client_key)

  -- `RedisConfig::try_from`.
  unfoldable pub redis_config : RedisOptions → Result Str RedisConfig
  unfolding config_for
  redis_config options = do
    _ ← system.check_authority (options.redis_address ++ str ":" ++ decimal options.redis_port)
    config_for options.redis_mode options

-- What `redis::Client` is opened with: an address, or a URL with certificates.
pub data RedisClient : Type 0 where
  tcp : (host : Str) (port : ℕ) → RedisClient
  with_tls : (url : Str) (client_tls : Option (Str × Str)) (root_cert : Option Str) → RedisClient

abbrev pub rediss_url : Str → ℕ → Str
rediss_url host port = str "rediss://" ++ host ++ str ":" ++ decimal port

-- `RedisClient::try_from`, up to the opening of the client.
unfoldable pub redis_client : RedisConfig → RedisClient
redis_client (plain_text_config host port) = tcp host port
redis_client (tls_config host port trust_bundle) =
    with_tls (rediss_url host port) none (some trust_bundle)
redis_client (mtls_config host port trust_bundle client_cert client_key) =
    with_tls (rediss_url host port) (some (client_cert, client_key)) (some trust_bundle)

pub data UpstreamConnectionMode : Type 0 where
  plain_text_or_tls : UpstreamConnectionMode
  plain_text_or_mtls : UpstreamConnectionMode
  tls_only : UpstreamConnectionMode
  mtls_only : UpstreamConnectionMode

pub record UpstreamTransportConfig : Type 0 where
  pub upstream_connection_mode : Option UpstreamConnectionMode
  pub upstream_private_key : Option Str
  pub upstream_certificate : Option Str
  pub upstream_trust_bundle : Option Str

-- The settings of the client for backends.
pub record ClientSettings : Type 0 where
  pub https_only : Bool
  pub identity : Option Str
  pub certificates : List Str

module _ (system : System) where
  abbrev read_identity : Option Str → Option Str → Result Str Str
  read_identity (some private_key) (some certificate) = do
    cert ← system.read_file certificate
    key ← system.read_file private_key
    system.identity_of (cert ++ key)
  read_identity _ _ = err (str "Invalid/missing configuration")

  unfoldable pub extract_identity : UpstreamTransportConfig → Result Str Str
  extract_identity config = read_identity config.upstream_private_key config.upstream_certificate

  abbrev client : Bool → Option Str → ClientSettings
  client https_only identity = record {
    https_only = https_only;
    identity = identity;
    certificates = [];
  }

  unfoldable pub connection_settings :
      Option UpstreamConnectionMode → UpstreamTransportConfig → Result Str ClientSettings
  unfolding extract_identity
  connection_settings none config = ok (client true none)
  connection_settings (some tls_only) config = ok (client true none)
  connection_settings (some plain_text_or_tls) config = ok (client false none)
  connection_settings (some plain_text_or_mtls) config = do
    identity ← extract_identity config
    ok (client false (some identity))
  connection_settings (some mtls_only) config = do
    identity ← extract_identity config
    ok (client true (some identity))

  abbrev trusted : Option Str → ClientSettings → Result Str ClientSettings
  trusted none settings = ok settings
  trusted (some path) settings = do
    bytes ← system.read_file path
    certificates ← system.bundle_of bytes
    ok (record settings { certificates = certificates })

  -- `reqwest::Client::try_from`, up to the building of the client.
  unfoldable pub upstream_client : UpstreamTransportConfig → Result Str ClientSettings
  unfolding connection_settings
  upstream_client config = do
    settings ← connection_settings config.upstream_connection_mode config
    trusted config.upstream_trust_bundle settings
