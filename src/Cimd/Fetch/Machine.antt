-- ===== src/Cimd/Fetch/Machine.antt =====
-- cimd.rs: the fetcher as a machine whose steps are those of concurrent calls, and its invariant.
use eri.Common.{ℕ, ◌+◌, ◌≤◌, ◌≡◌, Text, true, List, All, length, text_eq, Result, ok}
use eri.External.{Libs}
use eri.Cimd.Binding.{LeasedClientMetadata}
use eri.Cimd.Document.{CimdError}
use eri.Cimd.Document.Redirects.{Distinct}
use eri.Cimd.ClientId.{Target, validate_client_id}
use eri.Cimd.Ttl.{max_cache_ttl}
use eri.Cimd.Fetch.{
  ResponseDocument, SocketAddr, CimdFetcher, Begun, begin, land, complete, is_in_flight,
  max_cache_entries, concurrency, new_fetcher,
}

-- A call begins; a flight ends with what its host answered; or its caller drops it.
pub data Step (lib : Libs) (instant : ℕ) (f g : CimdFetcher) : Type 0 where
  begun :
      (client_id : Text) (how : Begun)
      → begin lib client_id instant f ≡ (g, how)
      → Step lib instant f g
  completed :
      (client_id : Text) (target : Target) (resolved : Result CimdError (List SocketAddr))
      (transport : List SocketAddr → Result CimdError ResponseDocument) (position : ℕ)
      (answer : Result CimdError LeasedClientMetadata)
      → validate_client_id lib client_id ≡ ok target
      → is_in_flight client_id f ≡ true
      → complete lib client_id target resolved transport instant position f ≡ (g, answer)
      → Step lib instant f g
  cancelled :
      (client_id : Text)
      → is_in_flight client_id f ≡ true
      → land client_id f ≡ g
      → Step lib instant f g

-- The states that a new fetcher reaches, with the reading of the clock at the last step.
pub data Reaches (lib : Libs) : ℕ → CimdFetcher → Type 0 where
  start : (instant : ℕ) (f : CimdFetcher) → f ≡ new_fetcher → Reaches lib instant f
  next :
      (earlier instant : ℕ) (f g : CimdFetcher)
      → Reaches lib earlier f
      → earlier ≤ instant
      → Step lib instant f g
      → Reaches lib instant g

-- A cached lease: it is of the client that it is filed under, and ends within five minutes.
abbrev pub IsLease : ℕ → Text × LeasedClientMetadata → Type 0
IsLease instant (client_id, lease) =
    (lease.document.client_id ≡ client_id) × (lease.valid_until ≤ instant + max_cache_ttl)

pub record IsValid (instant : ℕ) (f : CimdFetcher) : Type 0 where
  pub cache_bound : length f.cache ≤ max_cache_entries
  pub permits_held : f.permits + length f.in_flight ≡ concurrency
  pub one_flight : Distinct f.in_flight
  pub leases : All (IsLease instant) f.cache
