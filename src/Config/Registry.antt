-- ===== src/Config/Registry.antt =====
-- config.rs: the registry has every client that is declared.
use eri.Common.{
  ◌≡◌, inl, inr, refl, arith, ap, ◌∙◌, subst, Text, bytes, true, Option, some, List, [], ◌∷◌, In,
  text_eq, text_beq_iff, ok, Option-cases, Result-cases,
}
use eri.Common.HashMap
use eri.Common.HashMap.{get-insert}
use eri.External.{Libs, Url}
use eri.Oauth.Types.{AuthorizationFlow}
use eri.Oauth.Client.{FirstPartyClient, ClientParts, with_authorization_flow}
use eri.Oauth.Registry.{ClientRegistry, contains_client, build_clients, build, with_issuer}
use eri.Oauth.Registry.Keys.{IsKeyed, build-IsKeyed}
use eri.Config.Types.{ClientDeclaration, AuthorizationConfig}
use eri.Config.{declared_redirects, declared_parts, declared_client, declared_clients, registry_of}

-- Every client of a list is filed in a map.
abbrev AreFiled : List FirstPartyClient → HashMap.HashMap FirstPartyClient → Type 0
AreFiled clients m = (c : FirstPartyClient) → In c clients → HashMap.contains_key c.id m ≡ true

build_clients-keeps :
    (clients : List FirstPartyClient) (m built : HashMap.HashMap FirstPartyClient) (id : Text)
    → build_clients clients m ≡ ok built
    → HashMap.contains_key id m ≡ true
    → HashMap.contains_key id built ≡ true
unfolding build_clients
build_clients-keeps [] m built id run h = ground arith
build_clients-keeps (client ∷ rest) m built id run h =
    build_clients-keeps rest (HashMap.insert client.id client m) built id (ground arith)
      (ground (arith, get-insert client.id id client m))

build_clients-AreFiled :
    (clients : List FirstPartyClient) (m built : HashMap.HashMap FirstPartyClient)
    → build_clients clients m ≡ ok built
    → AreFiled clients built
unfolding build_clients
build_clients-AreFiled [] m built run c i = elim i [ ]
build_clients-AreFiled (client ∷ rest) m built run c (inl same) =
    build_clients-keeps rest (HashMap.insert client.id client m) built c.id (ground arith) (
      ground (
        arith,
        get-insert client.id c.id client m,
        ap (λ (x : FirstPartyClient). x.id) same,
        text_beq_iff client.id c.id,
      ))
build_clients-AreFiled (client ∷ rest) m built run c (inr later) =
    build_clients-AreFiled rest (HashMap.insert client.id client m) built (ground arith) c later

module _ (lib : Libs) where
  with_authorization_flow-id :
      (parts : ClientParts) (flow : AuthorizationFlow) (client : FirstPartyClient)
      → with_authorization_flow lib parts flow ≡ ok client
      → client.id ≡ parts.id
  unfolding with_authorization_flow
  with_authorization_flow-id parts flow client run = ground arith

  declared_client-id :
      (c : ClientDeclaration) (client : FirstPartyClient)
      → declared_client lib c ≡ ok client
      → client.id ≡ c.id
  unfolding declared_client
  declared_client-id c client run = elim (Result-cases (declared_redirects lib c.redirects)) [
    | inr (e, refused) ↦ absurd (ground arith)
    | inl (redirects, read) ↦
        elim (Result-cases
          (with_authorization_flow lib (declared_parts lib c redirects) c.authorization_flow)) [
            | inr (e, refused) ↦ absurd (ground arith)
            | inl (made, built) ↦ ground (
              arith,
              with_authorization_flow-id (declared_parts lib c redirects) c.authorization_flow made
                  built,
            )
          ]
  ]

  -- The client of a declaration is in the list.
  declared_clients-In :
      (cs : List ClientDeclaration) (clients : List FirstPartyClient) (c : ClientDeclaration)
      → declared_clients lib cs ≡ ok clients
      → In c cs
      → (client : FirstPartyClient) × In client clients × (client.id ≡ c.id)
  unfolding declared_clients
  declared_clients-In [] clients c run i = elim i [ ]
  declared_clients-In (d ∷ ds) clients c run i = elim (Result-cases (declared_client lib d)) [
    | inr (e, refused) ↦ absurd (ground arith)
    | inl (client, made) ↦ elim (Result-cases (declared_clients lib ds)) [
      | inr (e, refused) ↦ absurd (ground arith)
      | inl (rest, others) ↦
          let e : client ∷ rest ≡ clients = ground arith in
          elim i [
            | inl same ↦ (
              client,
              subst (In client) e (inl refl),
              declared_client-id d client made ∙ ap (λ (x : ClientDeclaration). x.id) same,
            )
            | inr later ↦
                let (found, at, id) = declared_clients-In ds rest c others later in
                (found, subst (In found) e (inr at), id)
          ]
    ]
  ]

  with_issuer-build :
      (clients : List FirstPartyClient) (issuer : Url) (reg : ClientRegistry)
      → with_issuer lib clients issuer ≡ ok reg
      → (userinfo : Option Text) × (build clients userinfo ≡ ok reg)
  unfolding with_issuer
  with_issuer-build clients issuer reg run =
      elim (Option-cases (lib.join_url issuer (bytes "userinfo"))) [
        | inl refused ↦ absurd (ground arith)
        | inr (resource, joined) ↦ (some (lib.show_url resource), ground arith)
      ]

  build-AreFiled :
      (clients : List FirstPartyClient) (userinfo : Option Text) (reg : ClientRegistry)
      → build clients userinfo ≡ ok reg
      → AreFiled clients reg.clients
  unfolding build
  build-AreFiled clients userinfo reg run c i = elim (Result-cases (build_clients clients [])) [
    | inr (e, refused) ↦ absurd (ground arith)
    | inl (m, built) ↦
        let e : m ≡ reg.clients = ground arith in
        subst (λ clients'. HashMap.contains_key c.id clients' ≡ true) e
          (build_clients-AreFiled clients [] m built c i)
  ]

  -- The registry of a configuration files each client under its own identifier, and has every declared one.
  pub registry_of-declared :
      (auth : AuthorizationConfig) (issuer : Url) (reg : ClientRegistry)
      → registry_of lib auth issuer ≡ ok reg
      → IsKeyed reg
        × ((c : ClientDeclaration) → In c auth.clients → contains_client reg c.id ≡ true)
  unfolding registry_of
  registry_of-declared auth issuer reg run =
      elim (Result-cases (declared_clients lib auth.clients)) [
        | inr (e, refused) ↦ absurd (ground arith)
        | inl (clients, read) ↦ elim (Result-cases (with_issuer lib clients issuer)) [
          | inr (e, refused) ↦ absurd (ground arith)
          | inl (made, built) ↦
              let e : made ≡ reg = ground arith in
              let (userinfo, is_build) = with_issuer-build clients issuer made built in
              (
                subst IsKeyed e (build-IsKeyed clients userinfo made is_build),
                λ c i.
                    let (client, at, id) = declared_clients-In auth.clients clients c read i in
                    subst (λ r. contains_client r c.id ≡ true) e
                      (subst (λ k. contains_client made k ≡ true) id
                        (build-AreFiled clients userinfo made is_build client at)),
              )
        ]
      ]
