-- ===== src/Oauth/Registry.antt =====
-- oauth.rs: `ClientRegistry`: its construction, its projection by a metadata document, and its
-- queries. A reading of the monotonic clock is the argument `instant`.
pub mod Keys
use eri.Common.{
  ℕ, Text, bytes, Bool, true, false, not, ◌&&◌, ◌||◌, Option, none, some, List, [], ◌∷◌, ◌++◌, map,
  flat_map, is_empty, any, all, is_some, is_some_and, length, nat_beq, ◌==◌, text_eq, option_beq,
  starts_with, Result, ok, err, ◌>>=◌, ◌>>◌, refuse_if, ok_or, map_err, if◌then◌else◌,
}
use eri.Common.SortedSet.{collect, contains, is_subset}
use eri.Common.HashMap
use eri.Common.HashMap.{HashMap}
use eri.External.{Libs, Url}
use eri.Cimd.Binding.{
  ClientMetadataDocument, CimdSecurityBinding, LeasedClientMetadata, is_fresh, security_binding,
  binding_beq,
}
use eri.Oauth.Types.{
  RedirectKind, app_claimed_https, AuthorizationFlow, google_preauthorized, LogoutFlow,
  id_token_hint, OauthError, metadata_expired, invalid_client_declaration, unknown_client,
}
use eri.Oauth.Redirect.{RegisteredRedirect, kind_beq, new_redirect, redirect_matches}
use eri.Oauth.Client.{FirstPartyClient, ClientParts, new_client}

-- `ResolvedCimdPolicy`
pub record ResolvedCimdPolicy : Type 0 where
  pub snapshot : LeasedClientMetadata
  pub binding : CimdSecurityBinding

pub record ClientRegistry : Type 0 where
  pub clients : HashMap FirstPartyClient
  pub userinfo_resource : Option Text
  pub dynamic : Option ResolvedCimdPolicy

-- The loop of `ClientRegistry::build`: a repeated identifier is refused.
unfoldable pub build_clients :
    List FirstPartyClient → HashMap FirstPartyClient → Result OauthError (HashMap FirstPartyClient)
build_clients [] clients = ok clients
build_clients (client ∷ rest) clients =
    let next = build_clients rest (HashMap.insert client.id client clients) in
    if HashMap.contains_key client.id clients then err invalid_client_declaration else next

unfoldable pub build : List FirstPartyClient → Option Text → Result OauthError ClientRegistry
build clients userinfo_resource = do
  built ← build_clients clients []
  ok (record { clients = built; userinfo_resource = userinfo_resource; dynamic = none })

unfoldable pub with_issuer :
    (lib : Libs) → List FirstPartyClient → Url → Result OauthError ClientRegistry
with_issuer lib clients issuer = do
  resource ← ok_or (lib.join_url issuer (bytes "userinfo")) invalid_client_declaration
  build clients (some (lib.show_url resource))

abbrev pub contains_client : ClientRegistry → Text → Bool
contains_client reg client_id = HashMap.contains_key client_id reg.clients

-- `dynamic.as_ref().filter(|d| d.snapshot.document().client_id() == client_id)`
abbrev pub names_client : Text → ResolvedCimdPolicy → Bool
names_client client_id d = d.snapshot.document.client_id == client_id

unfoldable pub dynamic_for : ClientRegistry → Text → Option ResolvedCimdPolicy
dynamic_for reg client_id = elim reg.dynamic [
  | none ↦ none
  | some d ↦ if names_client client_id d then some d else none
]

-- `ClientRegistry::ensure_fresh`, and that of both grants, which hold the same policy.
unfoldable pub ensure_fresh : Option ResolvedCimdPolicy → ℕ → Result OauthError (Unit {0})
ensure_fresh dynamic instant =
    refuse_if (is_some_and (λ d. not (is_fresh d.snapshot instant)) dynamic) metadata_expired

-- `.map(RegisteredRedirect::new).collect::<Result<Vec<_>, _>>()`
unfoldable pub redirects_of : Libs → List Text → Result OauthError (List RegisteredRedirect)
redirects_of lib [] = ok []
redirects_of lib (uri ∷ uris) = do
  let kind =
      if starts_with (bytes "http://") uri then RedirectKind.native_loopback else RedirectKind.exact
  redirect ← new_redirect lib uri kind
  rest ← redirects_of lib uris
  ok (redirect ∷ rest)

unfoldable pub keep_scopes : Bool → List Text → List Text
keep_scopes effective_refresh [] = []
keep_scopes effective_refresh (s ∷ rest) =
    let kept = keep_scopes effective_refresh rest in
    if effective_refresh || not (s == bytes "offline_access") then s ∷ kept else kept

-- `"{} · nombre declarado: {}"`, whose middle dot is two bytes.
abbrev pub projected_name : ClientMetadataDocument → Text
projected_name doc =
    doc.client_id ++ (bytes " " ++ (0xc2 ∷ 0xb7 ∷ (bytes " nombre declarado: " ++ doc.client_name)))

-- The arguments of `FirstPartyClient::new` for a projected client.
abbrev pub projected_parts :
    ClientMetadataDocument → List RegisteredRedirect → List Text → List Text → Bool → ClientParts
projected_parts doc redirects scopes resources allow_refresh = record {
  id = doc.client_id;
  display_name = projected_name doc;
  redirects = redirects;
  scopes = keep_scopes (allow_refresh && doc.refresh_allowed) scopes;
  resources = resources;
  default_resource = none;
  browser_origins = [];
  post_logout_redirects = [];
}

unfoldable pub project_cimd :
    Libs
    → ℕ
    → ClientRegistry
    → LeasedClientMetadata
    → List Text
    → List Text
    → Bool
    → Result OauthError ClientRegistry
project_cimd lib instant reg snapshot scopes resources allow_refresh = do
  let doc = snapshot.document
  refuse_if
      (contains_client reg doc.client_id
        || not (is_fresh snapshot instant)
        || is_empty scopes
        || is_empty resources)
      invalid_client_declaration
  redirects ← redirects_of lib doc.redirect_uris
  client ← new_client lib (projected_parts doc redirects scopes resources allow_refresh)
  ok (record reg {
    clients = HashMap.insert client.id client reg.clients;
    dynamic = some (record { snapshot = snapshot; binding = security_binding doc allow_refresh });
  })

-- The comparison of the policy that is in force with the stored binding.
unfoldable pub match_binding :
    Libs → Option ResolvedCimdPolicy → Option Text → Result OauthError (Unit {0})
match_binding lib none none = ok tt
match_binding lib (some current) (some stored) = do
  binding ← ok_or (lib.parse_binding stored) invalid_client_declaration
  refuse_if (not (binding_beq binding current.binding)) invalid_client_declaration
match_binding lib none (some stored) = err invalid_client_declaration
match_binding lib (some current) none = err invalid_client_declaration

unfoldable pub validate_binding :
    Libs → ℕ → ClientRegistry → Text → Option Text → Result OauthError (Unit {0})
validate_binding lib instant reg client_id stored = do
  ensure_fresh reg.dynamic instant
  refuse_if (not (contains_client reg client_id)) unknown_client
  match_binding lib (dynamic_for reg client_id) stored

abbrev is_id_token_hint : LogoutFlow → Bool
is_id_token_hint id_token_hint = true
is_id_token_hint _ = false

module _ (reg : ClientRegistry) where
  unfoldable pub trusted_redirect : Libs → Text → Text → Bool
  trusted_redirect lib client_id uri =
      is_some_and (λ (c : FirstPartyClient). any (λ r. redirect_matches lib r uri) c.redirects)
        (HashMap.get client_id reg.clients)

  unfoldable pub allows_id_token_logout : Text → Bool
  allows_id_token_logout client_id =
      is_some_and (λ (c : FirstPartyClient). is_id_token_hint c.logout_flow)
        (HashMap.get client_id reg.clients)

  unfoldable pub valid_post_logout_redirect : Text → Text → Bool
  valid_post_logout_redirect client_id uri =
      is_some_and (λ (c : FirstPartyClient). any (λ r. r == uri) c.post_logout_redirects)
        (HashMap.get client_id reg.clients)

  unfoldable pub valid_browser_origin : Text → Text → Bool
  valid_browser_origin client_id origin =
      is_some_and (λ (c : FirstPartyClient). contains c.browser_origins origin)
        (HashMap.get client_id reg.clients)

  unfoldable pub reviewed_browser_origin : Text → Bool
  reviewed_browser_origin origin =
      any (λ (c : FirstPartyClient). contains c.browser_origins origin) (HashMap.values reg.clients)

  -- `advertised_scopes`
  unfoldable pub advertised_scopes : List Text
  advertised_scopes =
      collect (flat_map (λ (c : FirstPartyClient). c.scopes) (HashMap.values reg.clients))

  unfoldable pub display_name : Text → Option Text
  display_name client_id = elim (HashMap.get client_id reg.clients) [
    | none ↦ none
    | some client ↦ some client.display_name
  ]

  -- `requested.contains("openid") && self.userinfo_resource.as_deref() == Some(resource)`
  abbrev pub is_userinfo : List Text → Text → Bool
  is_userinfo requested resource =
      contains requested (bytes "openid") && option_beq reg.userinfo_resource (some resource)

  unfoldable pub permits_refresh : Text → List Text → Text → Bool
  permits_refresh client_id scopes resource = elim (HashMap.get client_id reg.clients) [
    | none ↦ false
    | some client ↦
        if is_some (dynamic_for reg client_id) && not (contains client.resources resource)
        then false
        else nat_beq (length (collect scopes)) (length scopes)
          && is_subset (collect scopes) client.scopes
          && (contains client.resources resource || is_userinfo (collect scopes) resource)
  ]
