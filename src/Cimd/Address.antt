-- ===== src/Cimd/Address.antt =====
-- cimd.rs: the names and the addresses that a metadata document may be fetched from.
pub mod Ranges
use eri.Common.{
  ℕ, ◌/◌, ◌%◌, ◌^◌, Text, bytes, Bool, true, false, not, ◌&&◌, ◌||◌, Option, none, some, List, [],
  ◌∷◌, length, is_empty, any, all, ltb, leb, nat_beq, ◌==◌, text_eq, is_ascii_alphanumeric,
  if◌then◌else◌, split, trim_end_by, contains_byte, first_is, last_is,
}
use eri.External.{Libs}

-- `std::net::IpAddr`: the octets of an IPv4 address, the segments of an IPv6 address.
pub data IpAddr : Type 0 where
  v4 : ℕ → ℕ → ℕ → ℕ → IpAddr
  v6 : ℕ → ℕ → ℕ → ℕ → ℕ → ℕ → ℕ → ℕ → IpAddr

abbrev pub within : ℕ → ℕ → ℕ → Bool
within low high n = leb low n && leb n high

-- `matches!((b, c), …)` under the first octet 192.
abbrev pub reserved_192 : ℕ → ℕ → Bool
reserved_192 b c =
    nat_beq b 2
    || (nat_beq b 31 && nat_beq c 196)
    || (nat_beq b 52 && nat_beq c 193)
    || (nat_beq b 88 && nat_beq c 99)
    || (nat_beq b 175 && nat_beq c 48)

unfoldable pub public_v4 : ℕ → ℕ → ℕ → Bool
public_v4 a b c =
    if nat_beq a 0 || nat_beq a 10 || nat_beq a 127 || within 224 255 a
    then false
    else if nat_beq a 100
    then not (within 64 127 b)
    else if nat_beq a 169
    then not (nat_beq b 254)
    else if nat_beq a 172
    then not (within 16 31 b)
    else if nat_beq a 192
    then not (nat_beq b 0) && not (nat_beq b 168) && not (reserved_192 b c)
    else if nat_beq a 198
    then not (nat_beq b 18) && not (nat_beq b 19) && (not (nat_beq b 51) || not (nat_beq c 100))
    else if nat_beq a 203
    then not (nat_beq b 0) || not (nat_beq c 113)
    else true

-- `to_ipv4_mapped`: ::ffff:0:0/96.
abbrev pub is_ipv4_mapped : ℕ → ℕ → ℕ → ℕ → ℕ → ℕ → Bool
is_ipv4_mapped s0 s1 s2 s3 s4 s5 =
    nat_beq s0 0
    && nat_beq s1 0
    && nat_beq s2 0
    && nat_beq s3 0
    && nat_beq s4 0
    && nat_beq s5 0xffff

-- The mask 0xe000 keeps the three upper bits of a segment; 0x2000 is their value 1.
abbrev pub global_unicast : ℕ → ℕ → ℕ → Bool
global_unicast s0 s1 s2 =
    nat_beq (s0 / 2 ^ 13 % 8) 1
    && not (nat_beq s0 0x2001 && (leb s1 0x01ff || nat_beq s1 0x0db8))
    && not (nat_beq s0 0x2002)
    && not (nat_beq s0 0x3fff)
    && not (nat_beq s0 0x2620 && nat_beq s1 0x004f && nat_beq s2 0x8000)

unfoldable pub public_ip : IpAddr → Bool
unfolding public_v4
public_ip (v4 a b c d) = public_v4 a b c
public_ip (v6 s0 s1 s2 s3 s4 s5 s6 s7) =
    if is_ipv4_mapped s0 s1 s2 s3 s4 s5 then false else global_unicast s0 s1 s2

-- The last part of `host.rsplit('.')` that is refused.
abbrev pub special_use : Text → Bool
special_use last =
    last == bytes "localhost"
    || last == bytes "local"
    || last == bytes "internal"
    || last == bytes "test"
    || last == bytes "invalid"
    || last == bytes "example"
    || last == bytes "onion"
    || last == bytes "arpa"
    || last == bytes "home"
    || last == bytes "lan"

abbrev pub last_part : List Text → Text
last_part [] = []
last_part (part ∷ []) = part
last_part (part ∷ next ∷ parts) = last_part (next ∷ parts)

abbrev pub is_label_byte : ℕ → Bool
is_label_byte b = is_ascii_alphanumeric b || nat_beq b b'-'

abbrev pub is_hyphen : ℕ → Bool
is_hyphen b = nat_beq b b'-'

unfoldable pub valid_label : Text → Bool
valid_label label =
    not (is_empty label)
    && leb (length label) 63
    && not (first_is is_hyphen label)
    && not (last_is is_hyphen label)
    && all is_label_byte label

-- `host.trim_end_matches('.')`
abbrev pub without_dots : Text → Text
without_dots = trim_end_by (λ b. nat_beq b b'.')

module _ (lib : Libs) where
  -- The guards on the name once its trailing dots are gone.
  unfoldable pub public_labels : Text → Bool
  unfolding valid_label
  public_labels host =
      if is_empty host
        || ltb 253 (length host)
        || not (contains_byte b'.' host)
        || lib.is_ip_address host
      then false
      else if special_use (last_part (split b'.' host))
      then false
      else all valid_label (split b'.' host)

  unfoldable pub public_dns_name : Text → Bool
  unfolding public_labels
  public_dns_name host = public_labels (without_dots host)
