-- ===== src/Cimd/Fetch.antt =====
-- cimd.rs: the fetcher. Its cache, the fetches in flight and the permits are its state; what the
-- resolver and the transport answer are arguments.
pub mod Checked
pub mod Machine
pub mod Flights
pub mod Kept
pub mod Invariant
pub mod Hits
use eri.Common.{
  ℕ, zero, suc, ◌+◌, ◌-◌, Text, bytes, Bool, true, false, not, ◌&&◌, ◌||◌, Option, none, some, List,
  [], ◌∷◌, length, is_empty, any, leb, ltb, nat_beq, ◌==◌, text_eq, is_some, Result, ok, err, ◌>>=◌,
  ◌>>◌, ok_or, refuse_if, if◌then◌else◌, split, trim, to_ascii_lowercase, starts_with,
}
use eri.Common.HashMap.{HashMap, get, insert, remove, retain, key_at}
use eri.External.{Libs}
use eri.Cimd.Binding.{ClientMetadataDocument, LeasedClientMetadata, is_fresh}
use eri.Cimd.Address.{IpAddr, public_ip}
use eri.Cimd.Document.{
  CimdError, unsafe_destination, fetch_failed, invalid_document, busy, validate_document,
}
use eri.Cimd.ClientId.{Target, validate_client_id}
use eri.Cimd.Ttl.{cache_ttl}

abbrev pub max_document_bytes : ℕ
max_document_bytes = 5120

abbrev pub max_cache_entries : ℕ
max_cache_entries = 128

-- Seconds.
abbrev pub non_cacheable_lease : ℕ
non_cacheable_lease = 5

-- The permits of the semaphore.
abbrev pub concurrency : ℕ
concurrency = 8

pub record ResponseDocument : Type 0 where
  pub status : ℕ
  pub content_type : Option Text
  pub cache_control : Option (List Text)
  pub age : ℕ
  pub body : Text

pub record SocketAddr : Type 0 where
  pub ip : IpAddr
  pub port : ℕ

abbrev pub bad_address : ℕ → SocketAddr → Bool
bad_address port addr = not (nat_beq addr.port port) || not (public_ip addr.ip)

-- The guard on the addresses of the host.
abbrev pub bad_addresses : ℕ → List SocketAddr → Bool
bad_addresses port addrs = is_empty addrs || ltb 32 (length addrs) || any (bad_address port) addrs

abbrev first_part : List Text → Text
first_part [] = []
first_part (part ∷ _) = part

abbrev ends_with_json : List Text → Bool
ends_with_json [] = false
ends_with_json (_ ∷ []) = false
ends_with_json (_ ∷ part ∷ []) = part == bytes "json"
ends_with_json (_ ∷ part ∷ next ∷ parts) = ends_with_json (part ∷ next ∷ parts)

-- `mime`, from the header.
abbrev pub mime_of : Text → Text
mime_of content_type = to_ascii_lowercase (trim (first_part (split b';' content_type)))

-- `ends_with("+json")`: the last part after a `+` is `json`.
unfoldable pub is_json : Text → Bool
unfolding split
is_json mime =
    mime == bytes "application/json"
    || (starts_with (bytes "application/") mime && ends_with_json (split b'+' mime))

module _ (lib : Libs) where
  -- What the fetch does with the response of a client's host.
  unfoldable pub read_response :
      Text → ResponseDocument → Result CimdError (ClientMetadataDocument × Option ℕ)
  read_response client_id response = do
    refuse_if (not (nat_beq response.status 200)) fetch_failed
    content_type ← ok_or response.content_type invalid_document
    refuse_if (not (is_json (mime_of content_type))) invalid_document
    refuse_if (ltb max_document_bytes (length response.body)) invalid_document
    document ← validate_document lib client_id response.body
    ok (document, cache_ttl response.cache_control response.age)

  -- The whole exchange: the answer of the resolver, then that of the transport.
  unfoldable pub exchange :
      Text
      → Target
      → Result CimdError (List SocketAddr)
      → (List SocketAddr → Result CimdError ResponseDocument)
      → Result CimdError (ClientMetadataDocument × Option ℕ)
  exchange client_id target resolved transport = do
    addrs ← resolved
    refuse_if (bad_addresses target.port addrs) unsafe_destination
    response ← transport addrs
    read_response client_id response

pub record CimdFetcher : Type 0 where
  pub permits : ℕ
  pub cache : HashMap LeasedClientMetadata
  pub in_flight : List Text

-- `CimdFetcher::new`
abbrev pub new_fetcher : CimdFetcher
new_fetcher = record { permits = concurrency; cache = []; in_flight = [] }

-- How a call begins: by a fresh snapshot, by an error, or with a flight.
pub data Begun : Type 0 where
  hit : LeasedClientMetadata → Begun
  refused : CimdError → Begun
  started : Target → Begun

abbrev pub fresh_snapshot : Text → ℕ → CimdFetcher → Option LeasedClientMetadata
fresh_snapshot client_id instant fetcher = elim (get client_id fetcher.cache) [
  | none ↦ none
  | some snapshot ↦ if is_fresh snapshot instant then some snapshot else none
]

-- A permit is taken, and the identifier joins those in flight.
abbrev pub take_off : Text → CimdFetcher → CimdFetcher
take_off client_id fetcher = record fetcher {
  permits = fetcher.permits - 1;
  in_flight = client_id ∷ fetcher.in_flight;
}

abbrev pub is_in_flight : Text → CimdFetcher → Bool
is_in_flight client_id fetcher = any (λ id. id == client_id) fetcher.in_flight

module _ (lib : Libs) where
  -- `fetch_leased` up to its first request.
  unfoldable pub begin : Text → ℕ → CimdFetcher → CimdFetcher × Begun
  begin client_id instant fetcher = elim (validate_client_id lib client_id) [
    | err e ↦ (fetcher, refused e)
    | ok target ↦ elim (fresh_snapshot client_id instant fetcher) [
      | some snapshot ↦ (fetcher, hit snapshot)
      | none ↦
          if nat_beq fetcher.permits 0 || is_in_flight client_id fetcher
          then (fetcher, refused busy)
          else (take_off client_id fetcher, started target)
    ]
  ]

abbrev pub lease_until : ℕ → Option ℕ → ℕ
lease_until instant none = instant + non_cacheable_lease
lease_until instant (some ttl) = instant + ttl

abbrev pub snapshot_of : ClientMetadataDocument → Option ℕ → ℕ → LeasedClientMetadata
snapshot_of doc ttl instant = record { document = doc; valid_until = lease_until instant ttl }

-- `cache.remove(&key)`, for the key that the map gives first.
abbrev pub evict : ℕ → HashMap LeasedClientMetadata → HashMap LeasedClientMetadata
evict position cache = elim (key_at position cache) [ none ↦ cache | some key ↦ remove key cache ]

abbrev pub make_room : ℕ → HashMap LeasedClientMetadata → HashMap LeasedClientMetadata
make_room position cache =
    if leb max_cache_entries (length cache) then evict position cache else cache

-- The cache after a response that may be kept, or not.
unfoldable pub publish :
    Text → ClientMetadataDocument → Option ℕ → ℕ → ℕ → CimdFetcher → CimdFetcher
publish client_id doc none instant position fetcher = fetcher
publish client_id doc (some ttl) instant position fetcher = record fetcher {
  cache =
      insert client_id (snapshot_of doc (some ttl) instant)
        (make_room position (retain (λ snapshot. is_fresh snapshot instant) fetcher.cache));
}

-- `ids.remove(&self.id)`
unfoldable pub without : Text → List Text → List Text
without id [] = []
without id (x ∷ xs) = let rest = without id xs in if x == id then xs else x ∷ rest

-- The drop of a flight and of its permit, however the fetch ended.
unfoldable pub land : Text → CimdFetcher → CimdFetcher
unfolding without
land client_id fetcher = record fetcher {
  permits = fetcher.permits + 1;
  in_flight = without client_id fetcher.in_flight;
}

module _ (lib : Libs) where
  -- `fetch_leased` after its first request, and the snapshot that it returns.
  unfoldable pub complete :
      Text
      → Target
      → Result CimdError (List SocketAddr)
      → (List SocketAddr → Result CimdError ResponseDocument)
      → ℕ
      → ℕ
      → CimdFetcher
      → CimdFetcher × Result CimdError LeasedClientMetadata
  complete client_id target resolved transport instant position fetcher =
      elim (exchange lib client_id target resolved transport) [
        | err e ↦ (land client_id fetcher, err e)
        | ok (doc, ttl) ↦ (
          land client_id (publish client_id doc ttl instant position fetcher),
          ok (snapshot_of doc ttl instant),
        )
      ]
