-- ===== src/Web/Provider.antt =====
-- web.rs: the provider, and the registry in which it resolves a client.
use eri.Common.{ℕ, Text, Option, none, some, Result, ok, err, if◌then◌else◌}
use eri.External.{Libs}
use eri.Cimd.Binding.{LeasedClientMetadata}
use eri.Cimd.Document.{CimdError}
use eri.Config.Types.{CimdPolicyConfig}
use eri.Oauth.Registry.{ClientRegistry, contains_client, project_cimd}
use eri.Tokens.{Signer}

-- `Provider`, with the keys of the state; the fetcher and the adapter of Google are not here.
pub record Provider : Type 0 where
  pub registry : ClientRegistry
  pub cimd_policy : Option CimdPolicyConfig
  pub issuer : Text
  pub userinfo : Text
  pub keys : Signer

abbrev projected : {E : Type 0} → Result E ClientRegistry → Option ClientRegistry
projected (ok registry) = some registry
projected (err e) = none

module _ (lib : Libs) where
  -- `Provider::resolve_client`: `fetched` is what `fetch_leased` answers, if it is called.
  unfoldable pub resolve_client :
      ℕ → Provider → Result CimdError LeasedClientMetadata → Text → Option ClientRegistry
  resolve_client instant p fetched client_id =
      if contains_client p.registry client_id then some p.registry else elim p.cimd_policy [
        | none ↦ none
        | some policy ↦ elim fetched [
          | err e ↦ none
          | ok snapshot ↦ projected (
              project_cimd lib instant p.registry snapshot policy.scopes policy.resources
                policy.allow_refresh)
        ]
      ]
