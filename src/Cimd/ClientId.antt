-- ===== src/Cimd/ClientId.antt =====
-- cimd.rs: `validate_client_id`, which reads a client's identifier as the URL of its document.
use eri.Common.{
  ℕ, ◌≤◌, ◌≡◌, Text, bytes, Bool, true, false, not, ◌||◌, Option, none, some, [], ◌∷◌, length,
  is_empty, any, ltb, nat_beq, ◌==◌, text_eq, text_beq_iff, is_some, strip_prefix, starts_with,
  Result, ok, err, ◌>>=◌, ◌>>◌, ok_or, refuse_if, if◌then◌else◌, arith, split, contains_byte, chars,
  is_control,
}
use eri.External.{Libs, Url, Host, domain, ipv4, ipv6}
use eri.Cimd.Address.{public_dns_name}
use eri.Cimd.Document.{CimdError, invalid_url, unsafe_destination}

abbrev pub max_client_id_bytes : ℕ
max_client_id_bytes = 2048

-- What `fetch_leased` asks for: the URL, its host and its port.
pub record Target : Type 0 where
  pub url : Url
  pub host : Text
  pub port : ℕ

-- `after_scheme[after_scheme.find('/')?..]`
unfoldable pub from_slash : Text → Option Text
from_slash [] = none
from_slash (b ∷ s) = let rest = from_slash s in if nat_beq b b'/' then some (b ∷ s) else rest

-- `split(['?', '#']).next()`
unfoldable pub before_query : Text → Text
before_query [] = []
before_query (b ∷ s) =
    let rest = before_query s in if nat_beq b b'?' || nat_beq b b'#' then [] else b ∷ rest

abbrev pub is_dot_segment : Text → Bool
is_dot_segment segment = segment == bytes "." || segment == bytes ".."

-- `Url::port_or_known_default`
abbrev pub port_or_known_default : Url → Option ℕ
port_or_known_default url = elim url.port [
  | some port ↦ some port
  | none ↦
      if url.scheme == bytes "https" || url.scheme == bytes "wss"
      then some 443
      else if url.scheme == bytes "http" || url.scheme == bytes "ws"
      then some 80
      else if url.scheme == bytes "ftp"
      then some 21
      else none
]

abbrev pub bad_text : Text → Bool
bad_text raw =
    is_empty raw
    || ltb max_client_id_bytes (length raw)
    || not (starts_with (bytes "https://") raw)
    || contains_byte b'\\' raw
    || any is_control (chars raw)

module _ (lib : Libs) where
  abbrev pub bad_url : Text → Url → Bool
  bad_url raw url =
      not (lib.show_url url == raw)
      || not (url.scheme == bytes "https")
      || not (is_empty url.username)
      || is_some url.password
      || is_some url.fragment
      || is_some url.query

  -- `let Host::Domain(host) = … else { … }`, and the guard on the name.
  abbrev pub public_host : Option Host → Result CimdError Text
  public_host none = err invalid_url
  public_host (some (domain host)) =
      if public_dns_name lib host then ok host else err unsafe_destination
  public_host (some (ipv4 _)) = err unsafe_destination
  public_host (some (ipv6 _)) = err unsafe_destination

  unfoldable pub validate_client_id : Text → Result CimdError Target
  validate_client_id raw = do
    refuse_if (bad_text raw) invalid_url
    after_scheme ← ok_or (strip_prefix (bytes "https://") raw) invalid_url
    path ← ok_or (from_slash after_scheme) invalid_url
    refuse_if (any is_dot_segment (split b'/' (before_query path))) invalid_url
    url ← ok_or (lib.parse_url raw) invalid_url
    refuse_if (bad_url raw url) invalid_url
    host ← public_host url.host
    port ← ok_or (port_or_known_default url) invalid_url
    ok (record { url = url; host = host; port = port })

  -- The URL that an identifier names.
  pub record IsTarget (raw : Text) (target : Target) : Type 0 where
    pub bounded : length raw ≤ max_client_id_bytes
    pub parsed : lib.parse_url raw ≡ some target.url
    pub normal : lib.show_url target.url ≡ raw
    pub https : target.url.scheme ≡ bytes "https"
    pub no_username : target.url.username ≡ []
    pub no_password : target.url.password ≡ none
    pub no_query : target.url.query ≡ none
    pub no_fragment : target.url.fragment ≡ none
    pub host_of_url : target.url.host ≡ some (domain target.host)
    pub host_is_public : public_dns_name lib target.host ≡ true
    pub port_of_url : port_or_known_default target.url ≡ some target.port

  validate_client_id-checks :
      (raw : Text) (target : Target)
      → validate_client_id raw ≡ ok target
      → (bad_text raw ≡ false)
        × (lib.parse_url raw ≡ some target.url)
        × (bad_url raw target.url ≡ false)
        × (public_host target.url.host ≡ ok target.host)
        × (port_or_known_default target.url ≡ some target.port)
  unfolding validate_client_id
  validate_client_id-checks raw target run =
      (grind arith, grind arith, grind arith, grind arith, grind arith)

  public_host-ok :
      (host : Option Host) (name : Text)
      → public_host host ≡ ok name
      → (host ≡ some (domain name)) × (public_dns_name lib name ≡ true)
  public_host-ok none name run = cc
  public_host-ok (some (domain host)) name run = (ground arith, ground arith)
  public_host-ok (some (ipv4 ip)) name run = cc
  public_host-ok (some (ipv6 ip)) name run = cc

  -- An accepted identifier of at most 2048 bytes is the normal form of an https URL without credentials, query or fragment, whose host is a public DNS name; the host and the port are those of the URL.
  pub validate_client_id-IsTarget :
      (raw : Text) (target : Target) → validate_client_id raw ≡ ok target → IsTarget raw target
  validate_client_id-IsTarget raw target run =
      let (text, parsed, checked, host, port) = validate_client_id-checks raw target run in
      let (is_domain, is_public) = public_host-ok target.url.host target.host host in
      record {
        bounded = ground arith;
        parsed = parsed;
        normal = ground (arith, text_beq_iff (lib.show_url target.url) raw);
        https = ground (arith, text_beq_iff target.url.scheme (bytes "https"));
        no_username = ground arith;
        no_password = ground arith;
        no_query = ground arith;
        no_fragment = ground arith;
        host_of_url = is_domain;
        host_is_public = is_public;
        port_of_url = port;
      }
