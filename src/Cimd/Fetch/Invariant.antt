-- ===== src/Cimd/Fetch/Invariant.antt =====
-- cimd.rs: the bounds of the fetcher's cache and flights in every state that it reaches.
use eri.Common.{
  ℕ, ◌≤◌, ◌≡◌, Text, true, false, Option, none, some, List, text_eq, Result, ok, Result-cases, inl,
  inr, arith, subst, ◌⊎◌, sym, ◌∙◌, ap,
}
use eri.External.{Libs}
use eri.Cimd.Binding.{ClientMetadataDocument}
use eri.Cimd.Document.{CimdError}
use eri.Cimd.ClientId.{Target}
use eri.Cimd.Ttl.{cache_ttl, max_cache_ttl}
use eri.Cimd.Ttl.Bounds.{cache_ttl-IsCacheable}
use eri.Cimd.Fetch.{
  ResponseDocument, SocketAddr, CimdFetcher, Begun, hit, refused, started, begin, publish, complete,
  exchange, take_off, is_in_flight, new_fetcher,
}
use eri.Cimd.Fetch.Checked.{exchange-IsChecked}
use eri.Cimd.Fetch.Machine.{Step, begun, completed, cancelled, Reaches, start, next, IsValid}
use eri.Cimd.Fetch.Flights.{NotIn-of_any}
use eri.Cimd.Fetch.Kept.{All-later, land-IsValid, publish-IsValid}

module _ (lib : Libs) (instant : ℕ) where
  -- A call that starts a flight holds a permit, and no other flight is its client's.
  pub begin-cases :
      (client_id : Text) (f g : CimdFetcher) (how : Begun)
      → begin lib client_id instant f ≡ (g, how)
      → (f ≡ g)
        ⊎ ((take_off client_id f ≡ g) × (1 ≤ f.permits) × (is_in_flight client_id f ≡ false))
  unfolding begin
  begin-cases client_id f g (hit lease) run = inl (ground arith)
  begin-cases client_id f g (refused e) run = inl (ground arith)
  begin-cases client_id f g (started target) run = inr (ground arith, ground arith, ground arith)

  begin-IsValid :
      (client_id : Text) (f g : CimdFetcher) (how : Begun)
      → begin lib client_id instant f ≡ (g, how)
      → IsValid instant f
      → IsValid instant g
  begin-IsValid client_id f g how run v = elim (begin-cases client_id f g how run) [
    | inl same ↦ subst (IsValid instant) same v
    | inr (taken, permitted, free) ↦ subst (IsValid instant) taken (record {
      cache_bound = v.cache_bound;
      permits_held = omega (arith, v.permits_held);
      one_flight = (NotIn-of_any client_id f.in_flight free, v.one_flight);
      leases = v.leases;
    })
  ]

  ttl-bound :
      (headers : Option (List Text)) (age seconds : ℕ)
      → cache_ttl headers age ≡ some seconds
      → seconds ≤ max_cache_ttl
  unfolding cache_ttl
  ttl-bound none age seconds run = cc
  ttl-bound (some headers) age seconds run =
      omega (arith, (cache_ttl-IsCacheable headers age seconds run).bounded)

  publish-in_flight :
      (client_id : Text) (doc : ClientMetadataDocument) (ttl : Option ℕ) (position : ℕ)
      (f : CimdFetcher)
      → is_in_flight client_id f ≡ true
      → is_in_flight client_id (publish client_id doc ttl instant position f) ≡ true
  unfolding publish
  publish-in_flight client_id doc none position f flying = flying
  publish-in_flight client_id doc (some ttl) position f flying = flying

  exchange-bounds :
      (client_id : Text) (target : Target) (resolved : Result CimdError (List SocketAddr))
      (transport : List SocketAddr → Result CimdError ResponseDocument)
      (doc : ClientMetadataDocument) (ttl : Option ℕ)
      → exchange lib client_id target resolved transport ≡ ok (doc, ttl)
      → (doc.client_id ≡ client_id) × ((seconds : ℕ) → ttl ≡ some seconds → seconds ≤ max_cache_ttl)
  exchange-bounds client_id target resolved transport doc ttl run =
      let (addrs, response, found, checked) =
        exchange-IsChecked lib client_id doc ttl target resolved transport run in
      (
        checked.accepted.is_accepted.same_id,
        λ seconds kept.
            ttl-bound response.cache_control response.age seconds (sym checked.kept_for ∙ kept),
      )

  complete-IsValid :
      (client_id : Text) (target : Target) (resolved : Result CimdError (List SocketAddr))
      (transport : List SocketAddr → Result CimdError ResponseDocument) (position : ℕ)
      (f : CimdFetcher)
      → is_in_flight client_id f ≡ true
      → IsValid instant f
      → IsValid instant (complete lib client_id target resolved transport instant position f).0
  unfolding complete
  complete-IsValid client_id target resolved transport position f flying v =
      elim (Result-cases (exchange lib client_id target resolved transport)) [
        | inr (e, failed) ↦ rw (failed, complete) (land-IsValid instant client_id f flying v)
        | inl ((doc, ttl), run) ↦
            let (same, bound) = exchange-bounds client_id target resolved transport doc ttl run in
            rw (run, complete)
              (land-IsValid instant client_id (publish client_id doc ttl instant position f)
                (publish-in_flight client_id doc ttl position f flying)
                (publish-IsValid client_id doc ttl instant position f same bound v))
      ]

  Step-IsValid : (f g : CimdFetcher) → Step lib instant f g → IsValid instant f → IsValid instant g
  Step-IsValid f g (begun client_id how run) v = begin-IsValid client_id f g how run v
  Step-IsValid f g (completed client_id target resolved transport position answer named flying run)
        v =
      subst (IsValid instant) (ap (λ r. r.0) run)
        (complete-IsValid client_id target resolved transport position f flying v)
  Step-IsValid f g (cancelled client_id flying landed) v =
      subst (IsValid instant) landed (land-IsValid instant client_id f flying v)

new_fetcher-IsValid : (instant : ℕ) → IsValid instant new_fetcher
new_fetcher-IsValid instant = record {
  cache_bound = omega arith;
  permits_held = omega arith;
  one_flight = tt;
  leases = tt;
}

-- In every order of calls that begin, end and are dropped, the cache has at most 128 entries, each a document of the client that it is filed under and stale within 300 seconds; the permits held are the flights, at most eight of them, and no client has two.
pub Reaches-IsValid :
    (lib : Libs) (instant : ℕ) (f : CimdFetcher) → Reaches lib instant f → IsValid instant f
Reaches-IsValid lib instant f (start _ _ new) =
    subst (IsValid instant) (sym new) (new_fetcher-IsValid instant)
Reaches-IsValid lib instant g (next earlier _ f _ reached later step) =
    let v = Reaches-IsValid lib earlier f reached in
    Step-IsValid lib instant f g step (record {
      cache_bound = v.cache_bound;
      permits_held = v.permits_held;
      one_flight = v.one_flight;
      leases = All-later earlier instant f.cache later v.leases;
    })
