-- ===== src/Oauth/Redirect.antt =====
-- oauth.rs: registered redirects, the URL guards, and the match of a presented redirect URI.
pub mod Loopback
pub mod Matching
use eri.Common.{
  ℕ, ◌+◌, ◌-◌, ◌*◌, ◌^◌, Text, bytes, Bool, true, false, not, ◌&&◌, ◌||◌, Option, none, some, List,
  [], ◌∷◌, is_empty, all, is_some, is_some_and, ltb, nat_beq, ◌==◌, text_eq, strip_prefix,
  starts_with, is_ascii_digit, Result, ok, err, ◌>>=◌, ◌>>◌, refuse_if, ok_or, is_err,
  if◌then◌else◌,
}
use eri.External.{Libs, Url, Host, domain}
use eri.Oauth.Types.{
  RedirectKind, exact, native_loopback, app_claimed_https, OauthError, invalid_client_declaration,
}

pub record RegisteredRedirect : Type 0 where
  pub uri : Text
  pub kind : RedirectKind

abbrev pub kind_beq : RedirectKind → RedirectKind → Bool
kind_beq exact exact = true
kind_beq native_loopback native_loopback = true
kind_beq app_claimed_https app_claimed_https = true
kind_beq _ _ = false

-- `rest.find(['/', '?', '#'])` and the split of the text there.
abbrev pub ends_authority : ℕ → Bool
ends_authority b = nat_beq b b'/' || nat_beq b b'?' || nat_beq b b'#'

unfoldable pub split_authority : Text → Text × Text
split_authority [] = ([], [])
split_authority (b ∷ s) =
    let rest = split_authority s in if ends_authority b then ([], b ∷ s) else (b ∷ rest.0, rest.1)

-- The value of a text of digits.
unfoldable pub decimal : ℕ → Text → ℕ
decimal n [] = n
decimal n (d ∷ s) = decimal (n * 10 + (d - b'0')) s

-- The guard on the port: digits that `parse::<u16>` accepts, and not zero.
unfoldable pub valid_port : Text → Bool
valid_port port =
    not (is_empty port)
    && all is_ascii_digit port
    && ltb (decimal 0 port) (2 ^ 16)
    && ltb 0 (decimal 0 port)

abbrev pub ipv6_host : Text
ipv6_host = bytes "[::1]"

abbrev pub ipv4_host : Text
ipv4_host = bytes "127.0.0.1"

unfoldable pub split_host : Text → Option (Text × Text)
split_host authority = elim (strip_prefix ipv6_host authority) [
  | some after ↦ some (ipv6_host, after)
  | none ↦ elim (strip_prefix ipv4_host authority) [
    | some after ↦ some (ipv4_host, after)
    | none ↦ none
  ]
]

-- The host and the suffix, once the port has passed.
unfoldable pub check_port : Text → Text → Text → Option (Text × Text)
check_port host suffix port =
    if is_empty port then some (host, suffix) else elim (strip_prefix (bytes ":") port) [
      | none ↦ none
      | some digits ↦ if valid_port digits then some (host, suffix) else none
    ]

unfoldable pub loopback_authority : Text → Text → Option (Text × Text)
loopback_authority authority suffix =
    if starts_with (bytes "#") suffix then none else elim (split_host authority) [
      | none ↦ none
      | some (host, port) ↦ check_port host suffix port
    ]

unfoldable pub loopback_parts : Text → Option (Text × Text)
loopback_parts raw = elim (strip_prefix (bytes "http://") raw) [
  | none ↦ none
  | some rest ↦ loopback_authority (split_authority rest).0 (split_authority rest).1
]

-- `safe_url`'s and `safe_redirect`'s guards on a parsed URL.
abbrev pub has_credentials_or_fragment : Url → Bool
has_credentials_or_fragment url =
    not (is_empty url.username) || is_some url.password || is_some url.fragment

abbrev pub same_parts : Text × Text → Text × Text → Bool
same_parts (h, s) (h', s') = h == h' && s == s'

abbrev pub is_domain_host : Option Host → Bool
is_domain_host (some (domain host)) = not (host == bytes "localhost")
is_domain_host _ = false

module _ (lib : Libs) where
  unfoldable pub safe_url : Text → Option Url
  safe_url raw = elim (lib.parse_url raw) [
    | none ↦ none
    | some url ↦
        if url.cannot_be_a_base || not (is_some url.host) || has_credentials_or_fragment url
        then none
        else some url
  ]

  unfoldable pub safe_redirect : Text → Option Url
  safe_redirect raw = elim (lib.parse_url raw) [
    | none ↦ none
    | some url ↦ if is_empty url.scheme || has_credentials_or_fragment url then none else some url
  ]

  unfoldable pub safe_security_identifier : Text → Bool
  safe_security_identifier raw = elim (safe_url raw) [
    | none ↦ false
    | some url ↦ url.scheme == bytes "https" && not (is_some url.query)
  ]

  -- `RegisteredRedirect::new`
  unfoldable pub new_redirect : Text → RedirectKind → Result OauthError RegisteredRedirect
  new_redirect uri kind = do
    parsed ← ok_or (safe_redirect uri) invalid_client_declaration
    refuse_if
        (kind_beq kind native_loopback
          && (not (parsed.scheme == bytes "http") || not (is_some (loopback_parts uri))))
        invalid_client_declaration
    refuse_if
        (kind_beq kind app_claimed_https
          && (not (parsed.scheme == bytes "https") || not (is_domain_host parsed.host)))
        invalid_client_declaration
    ok (record { uri = uri; kind = kind })

  unfoldable pub redirect_matches : RegisteredRedirect → Text → Bool
  redirect_matches registered actual =
      if not (is_some (safe_redirect actual))
      then false
      else if registered.uri == actual
      then true
      else if not (kind_beq registered.kind native_loopback)
      then false
      else elim (loopback_parts registered.uri) [
        | none ↦ false
        | some ours ↦ is_some_and (same_parts ours) (loopback_parts actual)
      ]
