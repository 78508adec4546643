-- ===== src/Oauth/Registry/Keys.antt =====
-- oauth.rs: every way to make a registry files each client under its own identifier.
use eri.Common.{
  ℕ, Text, Option, some, List, [], ◌∷◌, ok, ◌≡◌, arith, text_beq_iff, Bool, inl, inr, >>=-eq-ok,
  subst, Result-cases,
}
use eri.Common.HashMap
use eri.Common.HashMap.{HashMap, get-insert}
use eri.External.{Libs}
use eri.Cimd.Binding.{LeasedClientMetadata}
use eri.Oauth.Client.{FirstPartyClient, new_client}
use eri.Oauth.Registry.{
  ClientRegistry, build_clients, build, redirects_of, projected_parts, project_cimd,
}

abbrev pub AreKeyed : HashMap FirstPartyClient → Type 0
AreKeyed m = (k : Text) (c : FirstPartyClient) → HashMap.get k m ≡ some c → c.id ≡ k

-- Every client is filed under its own identifier.
abbrev pub IsKeyed : ClientRegistry → Type 0
IsKeyed reg = AreKeyed reg.clients

insert-AreKeyed :
    (client : FirstPartyClient) (m : HashMap FirstPartyClient)
    → AreKeyed m
    → AreKeyed (HashMap.insert client.id client m)
insert-AreKeyed client m h k c e =
    ground (arith, get-insert client.id k client m, text_beq_iff client.id k, h k c)

build_clients-AreKeyed :
    (clients : List FirstPartyClient) (m m' : HashMap FirstPartyClient)
    → AreKeyed m
    → build_clients clients m ≡ ok m'
    → AreKeyed m'
unfolding build_clients
build_clients-AreKeyed [] m m' h e = let same : m ≡ m' = cc in subst AreKeyed same h
build_clients-AreKeyed (client ∷ rest) m m' h e =
    build_clients-AreKeyed rest (HashMap.insert client.id client m) m' (insert-AreKeyed client m h)
      (ground arith)

AreKeyed-nil : AreKeyed []
unfolding HashMap.get
AreKeyed-nil k c e = cc

-- A registry that is built files each client under its own identifier.
pub build-IsKeyed :
    (clients : List FirstPartyClient) (userinfo : Option Text) (reg : ClientRegistry)
    → build clients userinfo ≡ ok reg
    → IsKeyed reg
unfolding build
build-IsKeyed clients userinfo reg h =
    let (m, built, e) = >>=-eq-ok _ (build_clients clients []) h in
    let same : m ≡ reg.clients = ground arith in
    subst AreKeyed same (build_clients-AreKeyed clients [] m AreKeyed-nil built)

-- The projection of a metadata document onto a registry that files each client under its own
-- identifier gives such a registry.
pub project_cimd-IsKeyed :
    (lib : Libs) (instant : ℕ) (reg reg' : ClientRegistry) (snapshot : LeasedClientMetadata)
    (scopes resources : List Text) (allow_refresh : Bool)
    → IsKeyed reg
    → project_cimd lib instant reg snapshot scopes resources allow_refresh ≡ ok reg'
    → IsKeyed reg'
unfolding project_cimd
project_cimd-IsKeyed lib instant reg reg' snapshot scopes resources allow_refresh h e =
    elim (Result-cases (redirects_of lib snapshot.document.redirect_uris)) [
      | inr (_, failed) ↦ absurd (ground arith)
      | inl (redirects, r) ↦
          elim (Result-cases (
            new_client lib
              (projected_parts snapshot.document redirects scopes resources allow_refresh))) [
                | inr (_, failed) ↦ absurd (ground arith)
                | inl (client, c) ↦
                    let same : HashMap.insert client.id client reg.clients ≡ reg'.clients =
                      ground arith in
                    subst AreKeyed same (insert-AreKeyed client reg.clients h)
              ]
    ]
