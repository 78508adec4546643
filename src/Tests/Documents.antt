-- ===== src/Tests/Documents.antt =====
-- Fetches of metadata documents at concrete identifiers, addresses and responses.
use eri.Common.{
  ◌≡◌, Text, bytes, true, false, not, Option, none, some, List, [], ◌∷◌, ◌++◌, any, all, refl,
  arith, Result, ok, err, text_beq, strip_prefix, chars_from, trim_start_by, trim_end_by, split,
  split_once, last_is, drop_last, parse_u64, digits_value,
}
use mathlib.Core.List.{flat_map}
use eri.Common.HashMap.{get, insert, remove, retain, key_at}
use eri.External.{Libs, Url, domain, Json, string, array, item, done}
use eri.Oauth.Redirect.{split_authority}
use eri.Cimd.Binding.{ClientMetadataDocument, LeasedClientMetadata}
use eri.Cimd.Address.{v4, v6, public_v4, public_ip, valid_label, public_labels, public_dns_name}
use eri.Cimd.Address.Ranges.{public_ip-eq-blocks, address, in_block, refused_blocks}
use eri.Cimd.Document.{
  CimdError, invalid_document, unsafe_destination, fetch_failed, busy, strict_object, json_beq,
  read_grants, safe_name, safe_redirect, read_redirects, validate_object, validate_document,
}
use eri.Cimd.Document.Accepted.{Accepts, validate_document-Accepts}
use eri.Cimd.ClientId.{
  Target, IsTarget, from_slash, before_query, validate_client_id, validate_client_id-IsTarget,
}
use eri.Cimd.Ttl.{unquote, read_directive, take_age, maximum_age, cache_ttl}
use eri.Cimd.Ttl.Bounds.{IsCacheable, cache_ttl-IsCacheable}
use eri.Cimd.Fetch.{
  ResponseDocument, SocketAddr, CimdFetcher, new_fetcher, hit, refused, started, is_json,
  read_response, exchange, begin, publish, without, land, complete, snapshot_of,
}
use eri.Cimd.Fetch.Checked.{IsChecked, exchange-IsChecked}
use eri.Cimd.Fetch.Machine.{start, next, begun, completed, IsValid}
use eri.Cimd.Fetch.Invariant.{Reaches-IsValid}
use eri.Cimd.Fetch.Hits.{begin-complete}
use eri.Tests.Demo

-- A URL is read as its host and its path.
abbrev url_at : Text × Text → Url
url_at (host, path) = record {
  scheme = bytes "https";
  username = [];
  password = none;
  host = some (domain host);
  port = none;
  path = path;
  query = none;
  fragment = none;
  cannot_be_a_base = false;
}

abbrev parse : Text → Option Url
parse s = elim (strip_prefix (bytes "https://") s) [
  | none ↦ none
  | some rest ↦ some (url_at (split_authority rest))
]

abbrev show : Url → Text
show url = elim url.host [ some (domain host) ↦ bytes "https://" ++ host ++ url.path | _ ↦ [] ]

abbrev client_id : Text
client_id = bytes "https://c.example.org/m"

abbrev callback : Text
callback = bytes "https://c.example.org/cb"

-- The only body that is an object has these entries.
abbrev entries : List (Text × Json)
entries =
    (bytes "client_id", string client_id)
    ∷ (bytes "client_name", string (bytes "App"))
    ∷ (bytes "token_endpoint_auth_method", string (bytes "none"))
    ∷ (bytes "redirect_uris", array (item (string callback) done))
    ∷ []

abbrev lib : Libs
lib = record Demo.lib { parse_url = parse; show_url = show; parse_object = λ body. some entries }

abbrev doc : ClientMetadataDocument
doc = record {
  client_id = client_id;
  client_name = bytes "App";
  redirect_uris = callback ∷ [];
  refresh_allowed = false;
}

abbrev target : Target
target = record {
  url = url_at (bytes "c.example.org", bytes "/m");
  host = bytes "c.example.org";
  port = 443;
}

program : Unit {0}
unfolding flat_map any all text_beq strip_prefix chars_from trim_start_by trim_end_by split
    split_once last_is drop_last parse_u64 digits_value get insert remove retain key_at
    split_authority public_v4 public_ip valid_label public_labels public_dns_name strict_object
    json_beq read_grants safe_name safe_redirect read_redirects validate_object validate_document
    from_slash before_query validate_client_id unquote read_directive take_age maximum_age cache_ttl
    is_json read_response exchange begin publish without land complete
program = tt

public_ip-eq-blocks_example :
    public_ip (v4 192 168 1 7) ≡ not (any (in_block (address 192 168 1 7)) refused_blocks)
public_ip-eq-blocks_example =
    public_ip-eq-blocks 192 168 1 7 (omega arith) (omega arith) (omega arith) (omega arith)

addresses :
    (public_ip (v4 8 8 8 8) ≡ true)
    × (public_ip (v4 100 64 0 1) ≡ false)
    × (public_ip (v6 0x2001 0x4860 0 0 0 0 0 1) ≡ true)
    × (public_ip (v6 0 0 0 0 0 0xffff 0x0808 0x0808) ≡ false)
    × (public_ip (v6 0xfe80 0 0 0 0 0 0 1) ≡ false)
unfolding program
addresses = (refl, refl, refl, refl, refl)

abbrev headers : List Text
headers = bytes "public, max-age=120" ∷ bytes "Max-Age=\"60\"" ∷ []

cache_ttl-IsCacheable_example : IsCacheable headers 10 50
unfolding program
cache_ttl-IsCacheable_example = cache_ttl-IsCacheable headers 10 50 refl

ttls :
    (cache_ttl (some (bytes "max-age=900" ∷ [])) 0 ≡ some 300)
    × (cache_ttl (some (bytes "max-age=900, No-Store" ∷ [])) 0 ≡ none)
    × (cache_ttl (some (bytes "max-age=10" ∷ [])) 10 ≡ none)
    × (cache_ttl (some (bytes "public" ∷ [])) 0 ≡ none)
unfolding program
ttls = (refl, refl, refl, refl)

validate_client_id-IsTarget_example : IsTarget lib client_id target
unfolding program
validate_client_id-IsTarget_example = validate_client_id-IsTarget lib client_id target refl

validate_document-Accepts_example : Accepts lib client_id (bytes "{}") doc
unfolding program
validate_document-Accepts_example = validate_document-Accepts lib client_id (bytes "{}") doc refl

abbrev addrs : List SocketAddr
addrs = record { ip = v4 8 8 8 8; port = 443 } ∷ []

abbrev response : ResponseDocument
response = record {
  status = 200;
  content_type = some (bytes "Application/JSON; charset=utf-8");
  cache_control = some headers;
  age = 10;
  body = bytes "{}";
}

abbrev transport : List SocketAddr → Result CimdError ResponseDocument
transport _ = ok response

exchange-IsChecked_example :
    (asked : List SocketAddr) × (answer : ResponseDocument) × (◌≡◌
      {A = Result CimdError (List SocketAddr)}
      (ok addrs)
      (ok asked))
    × IsChecked lib client_id target transport doc (some 50) asked answer
unfolding program
exchange-IsChecked_example =
    exchange-IsChecked lib client_id doc (some 50) target (ok addrs) transport refl

refusals :
    (exchange lib client_id target (ok (record { ip = v4 10 0 0 1; port = 443 } ∷ [])) transport
      ≡ err unsafe_destination)
    × (exchange lib client_id target (ok addrs) (λ _. ok (record response { status = 404 }))
        ≡ err fetch_failed)
    × (exchange lib (bytes "https://other.example.org/m") target (ok addrs) transport
        ≡ err invalid_document)
unfolding program
refusals = (refl, refl, refl)

-- A flight that starts at 100 and ends at 101.
abbrev flying : CimdFetcher
flying = record { permits = 7; cache = []; in_flight = client_id ∷ [] }

abbrev lease : LeasedClientMetadata
lease = snapshot_of doc (some 50) 101

abbrev landed : CimdFetcher
landed = record { permits = 8; cache = (client_id, lease) ∷ []; in_flight = [] }

take-off : begin lib client_id 100 new_fetcher ≡ (flying, started target)
unfolding program
take-off = refl

busy_client : begin lib client_id 100 flying ≡ (flying, refused busy)
unfolding program
busy_client = refl

landing : complete lib client_id target (ok addrs) transport 101 0 flying ≡ (landed, ok lease)
unfolding program
landing = refl

Reaches-IsValid_example : IsValid 101 landed
unfolding program
Reaches-IsValid_example = Reaches-IsValid lib 101 landed (
    next 100 101 flying landed
      (next 100 100 new_fetcher flying (start 100 new_fetcher refl) (omega arith)
        (begun client_id (started target) take-off))
      (omega arith)
      (completed client_id target (ok addrs) transport 0 (ok lease) refl refl landing))

begin-complete_example :
    begin lib client_id 101 (complete lib client_id target (ok addrs) transport 101 0 flying).0
    ≡ ((complete lib client_id target (ok addrs) transport 101 0 flying).0, hit lease)
unfolding program
begin-complete_example =
    begin-complete lib 101 client_id target (ok addrs) transport doc 50 0 flying refl refl
