-- ===== src/Cimd/Fetch/Kept.antt =====
-- cimd.rs: the invariant of the fetcher under the end of a flight and the change of the cache.
use eri.Common.{
  ℕ, ◌≤◌, ◌<◌, ◌≡◌, Text, true, Option, none, some, [], ◌∷◌, All, length, text_eq, Option-cases,
  inl, inr, arith, refl,
}
use eri.Common.HashMap.{
  HashMap, retain, key_at, length-insert-le, length-retain-le, length-remove-key_at, key_at-empty,
  All-insert, All-remove, All-retain,
}
use eri.Cimd.Binding.{ClientMetadataDocument, LeasedClientMetadata, is_fresh}
use eri.Cimd.Ttl.{max_cache_ttl}
use eri.Cimd.Fetch.{
  CimdFetcher, publish, land, is_in_flight, make_room, max_cache_entries, snapshot_of,
}
use eri.Cimd.Fetch.Machine.{IsLease, IsValid}
use eri.Cimd.Fetch.Flights.{Distinct-without, length-without}

pub All-later :
    (earlier instant : ℕ) (cache : HashMap LeasedClientMetadata)
    → earlier ≤ instant
    → All (IsLease earlier) cache
    → All (IsLease instant) cache
All-later earlier instant [] le h = tt
All-later earlier instant (entry ∷ cache) le h =
    ((h.0.0, omega arith), All-later earlier instant cache le h.1)

pub land-IsValid :
    (instant : ℕ) (client_id : Text) (f : CimdFetcher)
    → is_in_flight client_id f ≡ true
    → IsValid instant f
    → IsValid instant (land client_id f)
unfolding land
land-IsValid instant client_id f flying v = record {
  cache_bound = v.cache_bound;
  permits_held = omega (arith, length-without client_id f.in_flight flying, v.permits_held);
  one_flight = Distinct-without client_id f.in_flight v.one_flight;
  leases = v.leases;
}

-- Room is made by the loss of at most one entry.
length-make_room :
    (position : ℕ) (cache : HashMap LeasedClientMetadata)
    → length cache ≤ max_cache_entries
    → length (make_room position cache) < max_cache_entries
length-make_room position cache h = elim (Option-cases (key_at position cache)) [
  | inl none_left ↦ ground (arith, key_at-empty position cache none_left)
  | inr (key, first) ↦ ground (arith, length-remove-key_at position cache key first)
]

All-make_room :
    (instant position : ℕ) (cache : HashMap LeasedClientMetadata)
    → All (IsLease instant) cache
    → All (IsLease instant) (make_room position cache)
All-make_room instant position cache h = elim (Option-cases (key_at position cache)) [
  | inl none_left ↦ ground arith
  | inr (key, first) ↦ ground (arith, All-remove (IsLease instant) key cache h)
]

pub publish-IsValid :
    (client_id : Text) (doc : ClientMetadataDocument) (ttl : Option ℕ) (instant position : ℕ)
    (f : CimdFetcher)
    → doc.client_id ≡ client_id
    → ((seconds : ℕ) → ttl ≡ some seconds → seconds ≤ max_cache_ttl)
    → IsValid instant f
    → IsValid instant (publish client_id doc ttl instant position f)
unfolding publish
publish-IsValid client_id doc none instant position f same bound v = v
publish-IsValid client_id doc (some ttl) instant position f same bound v =
    let kept = retain (λ snapshot. is_fresh snapshot instant) f.cache in
    let room = make_room position kept in
    record {
      cache_bound = omega (
        arith,
        length-insert-le client_id (snapshot_of doc (some ttl) instant) room,
        length-make_room position kept,
        length-retain-le (λ (snapshot : LeasedClientMetadata). is_fresh snapshot instant) f.cache,
        v.cache_bound,
      );
      permits_held = v.permits_held;
      one_flight = v.one_flight;
      leases =
          All-insert (IsLease instant) client_id (snapshot_of doc (some ttl) instant) room
            (same, omega (arith, bound ttl refl))
            (All-make_room instant position kept (
              All-retain (IsLease instant) (λ snapshot. is_fresh snapshot instant) f.cache
                v.leases));
    }
