-- ===== src/Oauth/Redirect/Loopback.antt =====
-- oauth.rs: the form of the loopback redirects, `http://HOST[:PORT]SUFFIX`.
use mathlib.Core.List.{append_assoc}
use eri.Common.{
  ℕ, ◌≤◌, ◌≡◌, ◌≢◌, ◌↔◌, ◌⊎◌, inl, inr, refl, sym, ap, ◌∙◌, Text, bytes, Bool, true, false, not,
  some, [], ◌∷◌, ◌++◌, all, strip_prefix, starts_with, strip_prefix_iff, is_ascii_digit,
  Option-cases, arith,
}
use eri.Oauth.Redirect.{
  ends_authority, split_authority, valid_port, decimal, ipv4_host, ipv6_host, split_host,
  check_port, loopback_authority, loopback_parts,
}

abbrev in_authority : ℕ → Bool
in_authority b = not (ends_authority b)

-- Nothing, or a path or a query.
abbrev pub IsSuffix : Text → Type 0
IsSuffix [] = Unit
IsSuffix (b ∷ s) = (b ≡ b'/') ⊎ (b ≡ b'?')

-- Nothing, or a colon and the digits of a port from 1 to 65535.
abbrev pub IsPort : Text → Type 0
IsPort port =
    (port ≡ [])
    ⊎ ((digits : Text) × (port ≡ bytes ":" ++ digits)
        × (digits ≢ [])
        × (all is_ascii_digit digits ≡ true)
        × (1 ≤ decimal 0 digits)
        × (decimal 0 digits ≤ 65535))

valid_port_iff :
    (digits : Text)
    → (valid_port digits ≡ true) ↔ (
        (digits ≢ [])
        × (all is_ascii_digit digits ≡ true)
        × (1 ≤ decimal 0 digits)
        × (decimal 0 digits ≤ 65535))
unfolding valid_port
valid_port_iff digits = ground arith

abbrev pub IsLoopbackHost : Text → Type 0
IsLoopbackHost host = (host ≡ ipv4_host) ⊎ (host ≡ ipv6_host)

split_authority-append : (s : Text) → s ≡ (split_authority s).0 ++ (split_authority s).1
unfolding split_authority
split_authority-append [] = refl
split_authority-append (b ∷ s) = ground (arith, split_authority-append s)

abbrev starts_end : Text → Bool
starts_end [] = true
starts_end (b ∷ s) = ends_authority b

split_authority_end : (s : Text) → starts_end (split_authority s).1 ≡ true
unfolding split_authority
split_authority_end [] = refl
split_authority_end (b ∷ s) = ground (arith, split_authority_end s)

split_authority_of :
    (a s : Text)
    → all in_authority a ≡ true
    → starts_end s ≡ true
    → split_authority (a ++ s) ≡ (a, s)
unfolding split_authority all
split_authority_of [] [] h e = refl
split_authority_of [] (b ∷ s) h e = ground arith
split_authority_of (b ∷ a) s h e = ground (arith, split_authority_of a s)

IsSuffix-of_end : (s : Text) → starts_end s ≡ true → starts_with (bytes "#") s ≡ false → IsSuffix s
unfolding strip_prefix
IsSuffix-of_end [] e h = tt
IsSuffix-of_end (b ∷ s) e h = ground arith

split_host_sound :
    (a host port : Text)
    → split_host a ≡ some (host, port)
    → IsLoopbackHost host × (a ≡ host ++ port)
unfolding split_host
split_host_sound a host port h =
    ground (arith, strip_prefix_iff ipv6_host a port, strip_prefix_iff ipv4_host a port)

check_port_sound :
    (host suffix port h s : Text)
    → check_port host suffix port ≡ some (h, s)
    → (h ≡ host) × (s ≡ suffix) × IsPort port
unfolding check_port
check_port_sound host suffix [] h s e = (cc, cc, inl refl)
check_port_sound host suffix (b ∷ port) h s e =
    elim (Option-cases (strip_prefix (bytes ":") (b ∷ port))) [
      | inl missing ↦ absurd (ground arith)
      | inr (digits, found) ↦
          let valid = (valid_port_iff digits).0 (ground arith) in
          (
            ground arith,
            ground arith,
            inr (
              digits,
              (strip_prefix_iff (bytes ":") (b ∷ port) digits).0 found,
              valid.0,
              valid.1,
              valid.2,
              valid.3,
            ),
          )
    ]

-- The shape of a loopback redirect with its host and suffix.
abbrev pub IsLoopback : Text → Text → Text → Type 0
IsLoopback raw host suffix =
    (port : Text) × IsLoopbackHost host
    × IsPort port
    × IsSuffix suffix
    × (raw ≡ bytes "http://" ++ (host ++ (port ++ suffix)))

loopback_authority_sound :
    (a s host suffix : Text)
    → starts_end s ≡ true
    → loopback_authority a s ≡ some (host, suffix)
    → (port : Text) × IsLoopbackHost host
      × IsPort port
      × IsSuffix suffix
      × (a ≡ host ++ port)
      × (s ≡ suffix)
unfolding loopback_authority
loopback_authority_sound a s host suffix e h = elim (Option-cases (split_host a)) [
  | inl missing ↦ absurd (ground arith)
  | inr ((host', port), found) ↦
      let (is_host, split) = split_host_sound a host' port found in
      let no_fragment : starts_with (bytes "#") s ≡ false = ground arith in
      let (eh, es, is_port) = check_port_sound host' s port host suffix (ground arith) in
      (port, rw eh is_host, is_port, rw es (IsSuffix-of_end s e no_fragment), rw eh split, sym es)
]

loopback_parts_sound :
    (raw host suffix : Text) → loopback_parts raw ≡ some (host, suffix) → IsLoopback raw host suffix
unfolding loopback_parts
loopback_parts_sound raw host suffix h = elim (Option-cases (strip_prefix (bytes "http://") raw)) [
  | inl missing ↦ absurd (ground arith)
  | inr (rest, found) ↦
      let (port, is_host, is_port, is_suffix, ea, es) =
        loopback_authority_sound (split_authority rest).0 (split_authority rest).1 host suffix
          (split_authority_end rest) (ground arith) in
      let whole : rest ≡ (host ++ port) ++ suffix = cc (split_authority-append rest, ea, es) in
      (
        port,
        is_host,
        is_port,
        is_suffix,
        (strip_prefix_iff (bytes "http://") raw rest).0 found
            ∙ ap (λ r. bytes "http://" ++ r) (whole ∙ append_assoc host port suffix),
      )
]

digits_in_authority : (s : Text) → all is_ascii_digit s ≡ true → all in_authority s ≡ true
unfolding all
digits_in_authority [] h = refl
digits_in_authority (b ∷ s) h = ground (arith, digits_in_authority s)

port_in_authority : (port : Text) → IsPort port → all in_authority port ≡ true
unfolding all
port_in_authority port (inl e) = rw e
port_in_authority port (inr (digits, e, _, valid, _, _)) =
    rw e (ground (arith, digits_in_authority digits valid))

authority_bytes :
    (host port : Text) → IsLoopbackHost host → IsPort port → all in_authority (host ++ port) ≡ true
unfolding all
authority_bytes host port (inl e) p = rw e (port_in_authority port p)
authority_bytes host port (inr e) p = rw e (port_in_authority port p)

split_host_of :
    (host port : Text) → IsLoopbackHost host → split_host (host ++ port) ≡ some (host, port)
unfolding split_host strip_prefix
split_host_of host port (inl e) = rw e
split_host_of host port (inr e) = rw e

check_port_of :
    (host suffix port : Text) → IsPort port → check_port host suffix port ≡ some (host, suffix)
unfolding check_port strip_prefix
check_port_of host suffix port (inl e) = rw e
check_port_of host suffix port (inr (digits, e, some_digit, all_digits, low, high)) =
    rw e (rw ((valid_port_iff digits).1 (some_digit, all_digits, low, high)))

suffix_end : (s : Text) → IsSuffix s → (starts_end s ≡ true) × (starts_with (bytes "#") s ≡ false)
unfolding strip_prefix
suffix_end [] h = (refl, refl)
suffix_end (b ∷ s) h = ground arith

loopback_authority_of :
    (host port suffix : Text)
    → IsLoopbackHost host
    → IsPort port
    → IsSuffix suffix
    → loopback_authority (host ++ port) suffix ≡ some (host, suffix)
unfolding loopback_authority
loopback_authority_of host port suffix is_host is_port is_suffix = ground (
  arith,
  suffix_end suffix is_suffix,
  split_host_of host port is_host,
  check_port_of host suffix port is_port,
)

loopback_parts_complete :
    (raw host suffix : Text) → IsLoopback raw host suffix → loopback_parts raw ≡ some (host, suffix)
unfolding loopback_parts strip_prefix
loopback_parts_complete raw host suffix (port, is_host, is_port, is_suffix, e) =
    let split =
      split_authority_of (host ++ port) suffix (authority_bytes host port is_host is_port)
        (suffix_end suffix is_suffix).0 in
    let found = (strip_prefix_iff (bytes "http://") raw (host ++ (port ++ suffix))).1 e in
    rw (found, ← append_assoc host port suffix, split)
      (loopback_authority_of host port suffix is_host is_port is_suffix)

-- A URI is taken apart into a host and a suffix exactly when it reads `http://`, then 127.0.0.1 or
-- [::1], then no port or one from 1 to 65535, then the suffix: nothing, a path or a query.
pub loopback_parts_iff :
    (raw host suffix : Text)
    → (loopback_parts raw ≡ some (host, suffix)) ↔ IsLoopback raw host suffix
loopback_parts_iff raw host suffix =
    (loopback_parts_sound raw host suffix, loopback_parts_complete raw host suffix)
