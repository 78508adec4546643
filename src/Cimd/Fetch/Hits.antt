-- ===== src/Cimd/Fetch/Hits.antt =====
-- cimd.rs: what a call finds in the cache.
use eri.Common.{
  ℕ, ◌<◌, ◌≡◌, Text, true, false, Option, none, some, List, text_eq, text_beq_iff, Result, ok,
  arith, is_err, sym, refl,
}
use eri.Common.HashMap.{get, get-insert, retain}
use eri.External.{Libs}
use eri.Cimd.Binding.{ClientMetadataDocument, LeasedClientMetadata, is_fresh}
use eri.Cimd.Document.{CimdError}
use eri.Cimd.ClientId.{Target, validate_client_id}
use eri.Cimd.Ttl.{cache_ttl}
use eri.Cimd.Ttl.Bounds.{cache_ttl-IsCacheable}
use eri.Cimd.Fetch.{
  ResponseDocument, SocketAddr, CimdFetcher, hit, begin, publish, land, complete, exchange,
  make_room, snapshot_of,
}
use eri.Cimd.Fetch.Checked.{exchange-IsChecked}

-- The end of a flight leaves the cache alone.
land-cache : (client_id : Text) (f : CimdFetcher) → (land client_id f).cache ≡ f.cache
unfolding land
land-cache client_id f = refl

module _ (lib : Libs) (instant : ℕ) (client_id : Text) where
  begin-of_get :
      (target : Target) (f : CimdFetcher) (lease : LeasedClientMetadata)
      → validate_client_id lib client_id ≡ ok target
      → get client_id f.cache ≡ some lease
      → is_fresh lease instant ≡ true
      → begin lib client_id instant f ≡ (f, hit lease)
  unfolding begin
  begin-of_get target f lease named found fresh = ground arith

  ttl-positive :
      (headers : Option (List Text)) (age seconds : ℕ)
      → cache_ttl headers age ≡ some seconds
      → 0 < seconds
  unfolding cache_ttl
  ttl-positive none age seconds run = cc
  ttl-positive (some headers) age seconds run =
      (cache_ttl-IsCacheable headers age seconds run).positive

  -- A call for a client whose fetch has just ended with a document that may be kept is answered from the cache, by the snapshot of that fetch, and changes nothing.
  pub begin-complete :
      (target : Target) (resolved : Result CimdError (List SocketAddr))
      (transport : List SocketAddr → Result CimdError ResponseDocument)
      (doc : ClientMetadataDocument) (ttl position : ℕ) (f : CimdFetcher)
      → validate_client_id lib client_id ≡ ok target
      → exchange lib client_id target resolved transport ≡ ok (doc, some ttl)
      → begin lib client_id instant
          (complete lib client_id target resolved transport instant position f).0
        ≡ (
          (complete lib client_id target resolved transport instant position f).0,
          hit (snapshot_of doc (some ttl) instant),
        )
  unfolding complete publish
  begin-complete target resolved transport doc ttl position f named run =
      let (addrs, response, found, checked) =
        exchange-IsChecked lib client_id doc (some ttl) target resolved transport run in
      let positive = ttl-positive response.cache_control response.age ttl (sym checked.kept_for) in
      rw (run, complete)
        (begin-of_get target _ (snapshot_of doc (some ttl) instant) named
          (ground (
            arith,
            land-cache client_id (publish client_id doc (some ttl) instant position f),
            text_beq_iff client_id client_id,
            get-insert client_id client_id (snapshot_of doc (some ttl) instant) (
                make_room position (
                  retain (λ (snapshot : LeasedClientMetadata). is_fresh snapshot instant) f.cache)),
          ))
          (ground arith))

  -- A call is answered from the cache only by a snapshot that is filed under its client and still fresh, for an identifier that is valid; the fetcher stays as it was.
  pub begin-hit :
      (f g : CimdFetcher) (lease : LeasedClientMetadata)
      → begin lib client_id instant f ≡ (g, hit lease)
      → (f ≡ g)
        × (get client_id f.cache ≡ some lease)
        × (instant < lease.valid_until)
        × (is_err (validate_client_id lib client_id) ≡ false)
  unfolding begin
  begin-hit f g lease run = (ground arith, ground arith, ground arith, ground arith)
