-- ===== src/Config/Secure.antt =====
-- How the client of Redis is secured, for each mode of the command line.

use contextforge_data_plane.Prelude.{
  ◌≡◌, refl, ap, ◌∙◌, subst, Str, str, true, List, [], ◌∷◌, ◌++◌, Option, none, some, ok, err,
  ok-inj, ok_or-eq-ok, bind-eq-ok, Bool-cases, inl, inr, if◌then◌else◌,
}
use contextforge_data_plane.Prelude.Decimal.{decimal}
use contextforge_data_plane.Config.{
  RedisConnectionMode, plain_text, tls, mtls, RedisConfig, RedisOptions, System, some_certificates,
  validate_certs, validate_key, required, config_for, redis_config, RedisClient, tcp, with_tls,
  rediss_url, redis_client,
}

module _ (system : System) where
  -- The file of an option holds certificates, at least one.
  pub record HoldsCertificates (option : Option Str) (bytes : Str) : Type 0 where
    pub path : Str
    pub given : option ≡ some path
    pub read : system.read_file path ≡ ok bytes
    pub first_certificate : Str
    pub others : List Str
    pub parsed : system.certificates bytes ≡ ok (first_certificate ∷ others)

  -- The file of an option holds a private key.
  pub record HoldsKey (option : Option Str) (bytes : Str) : Type 0 where
    pub path : Str
    pub given : option ≡ some path
    pub read : system.read_file path ≡ ok bytes
    pub valid : system.is_private_key bytes ≡ true

  -- The client that a mode asks for.
  pub Secured : RedisConnectionMode → RedisOptions → RedisClient → Type 0
  Secured plain_text options client = client ≡ tcp options.redis_address options.redis_port
  Secured tls options client =
      (trust : Str) × HoldsCertificates options.redis_tls_trust_bundle trust
      × (client ≡ with_tls (rediss_url options.redis_address options.redis_port) none (some trust))
  Secured mtls options client =
      (trust certificate key : Str) × HoldsCertificates options.redis_tls_trust_bundle trust
      × HoldsCertificates options.redis_tls_client_certificate certificate
      × HoldsKey options.redis_tls_client_private_key key
      × (client
          ≡ with_tls (rediss_url options.redis_address options.redis_port) (some (certificate, key))
              (some trust))

  some_certificates-eq-ok :
      (bytes : Str) (certs : List Str) {kept : Str}
      → some_certificates system bytes certs ≡ ok kept
      → (first : Str) × (others : List Str) × (certs ≡ first ∷ others) × (bytes ≡ kept)
  some_certificates-eq-ok bytes [] h = absurd cc
  some_certificates-eq-ok bytes (c ∷ cs) h = (c, cs, refl, ok-inj h)

  holds_certificates :
      (what : Str) (mode : RedisConnectionMode) (option : Option Str) (path : Str) {bytes : Str}
      → required system what mode option ≡ ok path
      → validate_certs system path ≡ ok bytes
      → HoldsCertificates option bytes
  unfolding validate_certs
  holds_certificates what mode option path o h =
      let (read_bytes, r, h1) = bind-eq-ok (system.read_file path) _ h in
      let (certs, p, h2) = bind-eq-ok (system.certificates read_bytes) _ h1 in
      let (first, others, nonempty, same) = some_certificates-eq-ok read_bytes certs h2 in
      subst (HoldsCertificates option) same (record {
        path = path;
        given = ok_or-eq-ok _ option o;
        read = r;
        first_certificate = first;
        others = others;
        parsed = p ∙ ap ok nonempty;
      })

  checked_key :
      (bytes : Str) {key : Str}
      → (if system.is_private_key bytes then ok bytes else err (str "Private key is invalid"))
        ≡ ok key
      → (system.is_private_key bytes ≡ true) × (bytes ≡ key)
  checked_key bytes {key} h = elim (Bool-cases (system.is_private_key bytes)) [
    | inl e ↦ (
      e,
      ok-inj
          (subst (λ b. (if b then ok bytes else err (str "Private key is invalid")) ≡ ok key) e h),
    )
    | inr e ↦ absurd (
        let f =
          subst (λ b. (if b then ok bytes else err (str "Private key is invalid")) ≡ ok key) e h in
        cc)
  ]

  holds_key :
      (what : Str) (mode : RedisConnectionMode) (option : Option Str) (path : Str) {key : Str}
      → required system what mode option ≡ ok path
      → validate_key system path ≡ ok key
      → HoldsKey option key
  unfolding validate_key
  holds_key what mode option path o h =
      let (bytes, r, h1) = bind-eq-ok (system.read_file path) _ h in
      let (valid, same) = checked_key bytes h1 in
      subst (HoldsKey option) same
        (record { path = path; given = ok_or-eq-ok _ option o; read = r; valid = valid })

  config_for-Secured :
      (mode : RedisConnectionMode) (options : RedisOptions) {config : RedisConfig}
      → config_for system mode options ≡ ok config
      → Secured mode options (redis_client config)
  unfolding config_for Secured redis_client
  config_for-Secured plain_text options h =
      subst (λ c. Secured plain_text options (redis_client c)) (ok-inj h) refl
  config_for-Secured tls options h =
      let (path, o, h1) =
        bind-eq-ok (required system (str "Trust bundle") tls options.redis_tls_trust_bundle) _ h in
      let (trust, t, made) = bind-eq-ok (validate_certs system path) _ h1 in
      subst (λ c. Secured tls options (redis_client c)) (ok-inj made)
        (trust, holds_certificates _ tls _ path o t, refl)
  config_for-Secured mtls options h =
      let (path, o, h1) =
        bind-eq-ok (required system (str "Trust bundle") mtls options.redis_tls_trust_bundle) _ h in
      let (trust, t, h2) = bind-eq-ok (validate_certs system path) _ h1 in
      let (certs, o2, h3) =
        bind-eq-ok
          (required system (str "Client certificate") mtls options.redis_tls_client_certificate) _
          h2 in
      let (certificate, c, h4) = bind-eq-ok (validate_certs system certs) _ h3 in
      let (key_path, o3, h5) =
        bind-eq-ok (required system (str "Client key") mtls options.redis_tls_client_private_key) _
          h4 in
      let (key, k, made) = bind-eq-ok (validate_key system key_path) _ h5 in
      subst (λ c. Secured mtls options (redis_client c)) (ok-inj made)
        (
          trust,
          certificate,
          key,
          holds_certificates _ mtls _ path o t,
          holds_certificates _ mtls _ certs o2 c,
          holds_key _ mtls _ key_path o3 k,
          refl,
        )

  -- A configuration of Redis that is accepted gives the client that its mode asks for: without TLS only in
  -- the plain text mode; in the TLS mode with the trust bundle of the options, whose file holds certificates;
  -- in the mTLS mode with that and with the certificates and the private key of the options' files.
  pub redis_config-Secured :
      (options : RedisOptions) {config : RedisConfig}
      → redis_config system options ≡ ok config
      → Secured options.redis_mode options (redis_client config)
  unfolding redis_config
  redis_config-Secured options h =
      let (_, _, h1) =
        bind-eq-ok
          (system.check_authority (options.redis_address ++ str ":" ++ decimal options.redis_port))
          _ h in
      config_for-Secured options.redis_mode options h1
