-- ===== src/Cimd/Fetch/Checked.antt =====
-- cimd.rs: what stands behind a document that a fetch takes.
use eri.Common.{
  ℕ, ◌≤◌, ◌≡◌, Text, true, false, Option, List, [], ◌∷◌, All, any, length, Result, ok, Result-cases,
  inl, inr, arith,
}
use eri.External.{Libs}
use eri.Cimd.Binding.{ClientMetadataDocument}
use eri.Cimd.Address.{public_ip}
use eri.Cimd.Document.{CimdError, validate_document}
use eri.Cimd.Document.Accepted.{Accepts, validate_document-Accepts}
use eri.Cimd.ClientId.{Target}
use eri.Cimd.Ttl.{cache_ttl}
use eri.Cimd.Fetch.{
  ResponseDocument, SocketAddr, bad_address, bad_addresses, max_document_bytes, read_response,
  exchange,
}

AreGood-of_not_bad :
    (port : ℕ) (addrs : List SocketAddr)
    → any (bad_address port) addrs ≡ false
    → All (λ addr. (addr.port ≡ port) × (public_ip addr.ip ≡ true)) addrs
unfolding any
AreGood-of_not_bad port [] h = tt
AreGood-of_not_bad port (addr ∷ addrs) h =
    ((ground arith, ground arith), AreGood-of_not_bad port addrs (ground arith))

module _ (lib : Libs) where
  -- The addresses and the response of a fetch that succeeded.
  pub record IsChecked (client_id : Text) (target : Target)
      (transport : List SocketAddr → Result CimdError ResponseDocument)
      (doc : ClientMetadataDocument) (ttl : Option ℕ) (addrs : List SocketAddr)
      (response : ResponseDocument) : Type 0 where
    pub some_address : 1 ≤ length addrs
    pub few_addresses : length addrs ≤ 32
    pub public_addresses :
        All (λ addr. (addr.port ≡ target.port) × (public_ip addr.ip ≡ true)) addrs
    pub answered : transport addrs ≡ ok response
    pub status_ok : response.status ≡ 200
    pub bounded : length response.body ≤ max_document_bytes
    pub valid : validate_document lib client_id response.body ≡ ok doc
    pub accepted : Accepts lib client_id response.body doc
    pub kept_for : ttl ≡ cache_ttl response.cache_control response.age

  module _ (client_id : Text) (doc : ClientMetadataDocument) (ttl : Option ℕ) where
    read_response-checks :
        (response : ResponseDocument)
        → read_response lib client_id response ≡ ok (doc, ttl)
        → (response.status ≡ 200)
          × (length response.body ≤ max_document_bytes)
          × (validate_document lib client_id response.body ≡ ok doc)
          × (ttl ≡ cache_ttl response.cache_control response.age)
    unfolding read_response
    read_response-checks response run = (ground arith, ground arith, ground arith, ground arith)

    module _ (target : Target) (resolved : Result CimdError (List SocketAddr))
        (transport : List SocketAddr → Result CimdError ResponseDocument) where
      exchange-parts :
          exchange lib client_id target resolved transport ≡ ok (doc, ttl)
          → (addrs : List SocketAddr) × (response : ResponseDocument) × (resolved ≡ ok addrs)
            × (bad_addresses target.port addrs ≡ false)
            × (transport addrs ≡ ok response)
            × (read_response lib client_id response ≡ ok (doc, ttl))
      unfolding exchange
      exchange-parts run = elim (Result-cases resolved) [
        | inr (e, failed) ↦ absurd (ground arith)
        | inl (addrs, found) ↦ elim (Result-cases (transport addrs)) [
          | inr (e, failed) ↦ absurd (ground arith)
          | inl (response, answered) ↦
              (addrs, response, found, ground arith, answered, ground arith)
        ]
      ]

      -- A fetch that succeeds asked at one to 32 addresses, all public and at the port of the URL, and was answered with status 200 and at most 5120 bytes; they are a document that validate_document accepts for the client, and it is kept as cache_ttl allows.
      pub exchange-IsChecked :
          exchange lib client_id target resolved transport ≡ ok (doc, ttl)
          → (addrs : List SocketAddr) × (response : ResponseDocument) × (resolved ≡ ok addrs)
            × IsChecked client_id target transport doc ttl addrs response
      exchange-IsChecked run =
          let (addrs, response, found, good, answered, read) = exchange-parts run in
          let (status, bounded, valid, kept) = read_response-checks response read in
          (
            addrs,
            response,
            found,
            record {
              some_address = ground arith;
              few_addresses = ground arith;
              public_addresses = AreGood-of_not_bad target.port addrs (ground arith);
              answered = answered;
              status_ok = status;
              bounded = bounded;
              valid = valid;
              accepted = validate_document-Accepts lib client_id response.body doc valid;
              kept_for = kept;
            },
          )
