-- ===== src/Config/Valid.antt =====
-- config.rs: what a configuration that passes its validation is.
use eri.Common.{
  ◌≤◌, ◌≡◌, ◌⊎◌, inl, inr, arith, bytes, true, false, none, some, [], In, length, ◌==◌, text_eq,
  text_beq_iff, is_some, ok, Bool-cases, Result-cases,
}
use eri.External.{Libs, Url}
use eri.Oauth.Registry.{ClientRegistry, contains_client}
use eri.Oauth.Registry.Keys.{IsKeyed}
use eri.Config.Types.{
  Mode, development, production, ClientDeclaration, AuthorizationConfig, Config, is_loopback_ip,
  is_loopback_url,
}
use eri.Config.{
  registry_of, authorization_registry, check_scheme, check_issuer, bad_authorization, validate,
}
use eri.Config.Registry.{registry_of-declared}

-- An issuer that the mode allows.
abbrev pub IsAllowedScheme : Mode → Url → Type 0
IsAllowedScheme production issuer = issuer.scheme ≡ bytes "https"
IsAllowedScheme development issuer =
    (issuer.scheme ≡ bytes "https")
    ⊎ ((issuer.scheme ≡ bytes "http") × (is_loopback_url issuer ≡ true))

check_scheme-IsAllowed :
    (lib : Libs) (mode : Mode) (issuer : Url)
    → check_scheme lib mode issuer ≡ ok tt
    → IsAllowedScheme mode issuer
unfolding check_scheme
check_scheme-IsAllowed lib production issuer run =
    ground (arith, text_beq_iff issuer.scheme (bytes "https"))
check_scheme-IsAllowed lib development issuer run =
    elim (Bool-cases (issuer.scheme == bytes "http")) [
      | inl plain ↦ inr ((text_beq_iff issuer.scheme (bytes "http")).0 plain, ground arith)
      | inr other ↦ inl ((text_beq_iff issuer.scheme (bytes "https")).0 (ground arith))
    ]

module _ (lib : Libs) where
  -- A configuration that may be run.
  pub record IsValid (config : Config) : Type 0 where
    pub scheme : IsAllowedScheme config.mode config.issuer
    pub host : is_some config.issuer.host ≡ true
    pub no_username : config.issuer.username ≡ []
    pub no_password : config.issuer.password ≡ none
    pub no_query : config.issuer.query ≡ none
    pub no_fragment : config.issuer.fragment ≡ none
    pub root_path : config.issuer.path ≡ bytes "/"
    pub local : is_loopback_ip config.bind_ip ≡ true
    pub some_port : 1 ≤ config.bind_port
    pub some_connection : 1 ≤ config.database.max_connections
    pub pool_bounds : config.database.min_connections ≤ config.database.max_connections
    pub registry :
        (auth : AuthorizationConfig)
        → config.authorization ≡ some auth
        → (reg : ClientRegistry) × (authorization_registry lib config ≡ ok (some reg))
          × (1 ≤ length auth.clients)
          × IsKeyed reg
          × ((c : ClientDeclaration) → In c auth.clients → contains_client reg c.id ≡ true)

  check_issuer-parts :
      (mode : Mode) (issuer : Url)
      → check_issuer lib mode issuer ≡ ok tt
      → (is_some issuer.host ≡ true)
        × (issuer.username ≡ [])
        × (issuer.password ≡ none)
        × (issuer.query ≡ none)
        × (issuer.fragment ≡ none)
        × (issuer.path ≡ bytes "/")
        × (check_scheme lib mode issuer ≡ ok tt)
  unfolding check_issuer
  check_issuer-parts mode issuer run = (
    ground arith,
    ground arith,
    ground arith,
    ground arith,
    ground arith,
    ground (arith, text_beq_iff issuer.path (bytes "/")),
    ground arith,
  )

  declared-registry :
      (config : Config) (auth : AuthorizationConfig)
      → config.authorization ≡ some auth
      → bad_authorization lib config ≡ false
      → (reg : ClientRegistry) × (authorization_registry lib config ≡ ok (some reg))
        × (1 ≤ length auth.clients)
        × IsKeyed reg
        × ((c : ClientDeclaration) → In c auth.clients → contains_client reg c.id ≡ true)
  unfolding authorization_registry
  declared-registry config auth declared good =
      elim (Result-cases (registry_of lib auth config.issuer)) [
        | inr (e, refused) ↦ absurd (ground arith)
        | inl (reg, built) ↦
            let (keyed, filed) = registry_of-declared lib auth config.issuer reg built in
            (reg, ground arith, ground arith, keyed, filed)
      ]

  -- A configuration that passes has an issuer at the root of a host, without credentials, query or fragment: by https, or, in development only, by http at a loopback address. It binds to a loopback address and a port, bounds its pool, and, where it declares authorization, its registry is built, files each client under its own identifier and has every declared one, at least one.
  pub validate-IsValid : (config : Config) → validate lib config ≡ ok tt → IsValid config
  unfolding validate
  validate-IsValid config run =
      let (host, username, password, query, fragment, path, scheme) =
        check_issuer-parts config.mode config.issuer (ground arith) in
      record {
        scheme = check_scheme-IsAllowed lib config.mode config.issuer scheme;
        host = host;
        no_username = username;
        no_password = password;
        no_query = query;
        no_fragment = fragment;
        root_path = path;
        local = ground arith;
        some_port = ground arith;
        some_connection = ground arith;
        pool_bounds = ground arith;
        registry = λ auth declared. declared-registry config auth declared (ground arith);
      }
