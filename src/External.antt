-- ===== src/External.antt =====
-- The third-party code that the program calls: the `sha2`, `base64`, `url` and `serde_json`
-- crates. They are parameters: a record of functions, and the laws of each that a theorem needs.
use eri.Common.{ℕ, Text, Option, some, List, ◌≡◌, Bool, true, length, all, ◌||◌, nat_beq}
use eri.Common.{is_ascii_alphanumeric}
use eri.Cimd.Binding.{CimdSecurityBinding}

-- `url::Host`
pub data Host : Type 0 where
  domain : Text → Host
  ipv4 : List ℕ → Host
  ipv6 : List ℕ → Host

-- What the program reads of a parsed `url::Url`.
pub record Url : Type 0 where
  pub scheme : Text
  pub username : Text
  pub password : Option Text
  pub host : Option Host
  pub port : Option ℕ
  pub path : Text
  pub query : Option Text
  pub fragment : Option Text
  pub cannot_be_a_base : Bool

-- `serde_json::Value`. A number is its text.
mutual
  pub data Json : Type 0 where
    null : Json
    boolean : Bool → Json
    number : Text → Json
    string : Text → Json
    array : Items → Json
    object : Members → Json

  pub data Items : Type 0 where
    done : Items
    item : Json → Items → Items

  pub data Members : Type 0 where
    end : Members
    member : Text → Json → Members → Members

pub record Libs : Type 0 where
  -- `Sha256::digest`
  pub sha256 : Text → Text
  -- `URL_SAFE_NO_PAD.encode` and `.decode`
  pub base64_encode : Text → Text
  pub base64_decode : Text → Option Text
  -- `Url::parse`, `Url::join` and `Url::to_string`
  pub parse_url : Text → Option Url
  pub join_url : Url → Text → Option Url
  pub show_url : Url → Text
  -- `serde_json::to_string` and `from_str` at the security binding
  pub show_binding : CimdSecurityBinding → Text
  pub parse_binding : Text → Option CimdSecurityBinding
  -- `form_urlencoded::parse`
  pub parse_form : Text → List (Text × Text)
  -- `parse::<IpAddr>().is_ok()`
  pub is_ip_address : Text → Bool
  -- `serde_json::from_slice` at an object: its entries in their order, duplicates included
  pub parse_object : Text → Option (List (Text × Json))

-- The bytes of the URL-safe base64 alphabet.
abbrev pub is_base64_url : ℕ → Bool
is_base64_url b = is_ascii_alphanumeric b || nat_beq b b'-' || nat_beq b b'_'

-- The size of a SHA-256 digest, and RFC 4648, section 5, at the digests.
pub record EncodesDigests (lib : Libs) : Type 0 where
  pub digest_size : (m : Text) → length (lib.sha256 m) ≡ 32
  pub encoded_size : (m : Text) → length (lib.base64_encode (lib.sha256 m)) ≡ 43
  pub encoded_alphabet : (m : Text) → all is_base64_url (lib.base64_encode (lib.sha256 m)) ≡ true
  pub decode_encode :
      (m : Text) → lib.base64_decode (lib.base64_encode (lib.sha256 m)) ≡ some (lib.sha256 m)
