-- ===== src/Cimd/Document.antt =====
-- cimd.rs: the errors, the object without duplicate fields, and the validation of a document.
pub mod Redirects
pub mod Fields
pub mod Accepted
use eri.Common.{
  ℕ, Text, bytes, Bool, true, false, not, ◌&&◌, ◌||◌, Option, none, some, List, [], ◌∷◌, ◌++◌,
  length, is_empty, any, ltb, leb, nat_beq, ◌==◌, text_eq, is_some, is_some_and, Result, ok, err,
  ◌>>=◌, ◌>>◌, ok_or, refuse_if, if◌then◌else◌, trim_by, chars, chars_from, trim_start_by,
  trim_end_by, is_control, is_whitespace,
}
use eri.Common.HashMap.{HashMap, get, insert, contains_key}
use eri.External.{
  Libs, Url, Host, domain, ipv4, ipv6, Json, null, boolean, number, string, array, object, Items,
  done, item, Members, end, member,
}
use eri.Cimd.Binding.{ClientMetadataDocument, bool_beq}
use eri.Cimd.Address.{public_dns_name}

pub data CimdError : Type 0 where
  invalid_url unsafe_destination fetch_failed invalid_document busy : CimdError

abbrev pub max_redirects : ℕ
max_redirects = 16

-- `StrictObject`: the entries of an object, with no field twice.
unfoldable pub strict_object : HashMap Json → List (Text × Json) → Option (HashMap Json)
strict_object fields [] = some fields
strict_object fields (entry ∷ entries) =
    let rest = strict_object (insert entry.0 entry.1 fields) entries in
    if contains_key entry.0 fields then none else rest

-- `Value::as_str` and `Value::as_array`
abbrev pub as_str : Json → Option Text
as_str (string s) = some s
as_str _ = none

abbrev pub as_array : Json → Option Items
as_array (array items) = some items
as_array _ = none

abbrev pub elements : Items → List Json
elements done = []
elements (item value items) = value ∷ elements items

-- `PartialEq` on values.
unfoldable mutual
  pub json_beq : Json → Json → Bool
  json_beq null null = true
  json_beq (boolean a) (boolean b) = bool_beq a b
  json_beq (number a) (number b) = a == b
  json_beq (string a) (string b) = a == b
  json_beq (array a) (array b) = items_beq a b
  json_beq (object a) (object b) = members_beq a b
  json_beq _ _ = false

  pub items_beq : Items → Items → Bool
  items_beq done done = true
  items_beq (item a xs) (item b ys) = json_beq a b && items_beq xs ys
  items_beq _ _ = false

  pub members_beq : Members → Members → Bool
  members_beq end end = true
  members_beq (member k a xs) (member j b ys) = k == j && json_beq a b && members_beq xs ys
  members_beq _ _ = false

abbrev pub is_string : Text → Json → Bool
is_string s value = is_some_and (λ t. t == s) (as_str value)

abbrev pub is_grant : Json → Bool
is_grant value =
    is_string (bytes "authorization_code") value || is_string (bytes "refresh_token") value

abbrev pub same_pair : List Json → Bool
same_pair (a ∷ b ∷ []) = json_beq a b
same_pair _ = false

abbrev pub bad_grants : List Json → Bool
bad_grants grants =
    is_empty grants
    || ltb 2 (length grants)
    || same_pair grants
    || any (λ v. not (is_grant v)) grants
    || not (any (is_string (bytes "authorization_code")) grants)

-- `refresh_allowed`, from the field `grant_types`.
unfoldable pub read_grants : Option Json → Result CimdError Bool
unfolding json_beq any
read_grants none = ok false
read_grants (some value) = do
  grants ← ok_or (as_array value) invalid_document
  refuse_if (bad_grants (elements grants)) invalid_document
  ok (any (is_string (bytes "refresh_token")) (elements grants))

abbrev pub only_code : List Json → Bool
only_code (value ∷ []) = is_string (bytes "code") value
only_code _ = false

abbrev pub bad_response_types : Json → Bool
bad_response_types value = elim (as_array value) [
  | none ↦ true
  | some types ↦ not (only_code (elements types))
]

-- The characters that a name may not have: controls, marks of direction, and markup.
abbrev pub is_refused_char : ℕ → Bool
is_refused_char c =
    is_control c
    || (leb 0x200b c && leb c 0x200f)
    || (leb 0x202a c && leb c 0x202e)
    || (leb 0x2066 c && leb c 0x2069)
    || nat_beq c b'<'
    || nat_beq c b'>'
    || nat_beq c b'&'

unfoldable pub safe_name : Text → Bool
unfolding chars_from any trim_start_by trim_end_by
safe_name name =
    let trimmed = trim_by is_whitespace (chars name) in
    not (is_empty trimmed)
    && trimmed == chars name
    && leb (length trimmed) 128
    && not (any is_refused_char trimmed)

-- 127.0.0.1 and ::1.
abbrev pub ipv4_localhost : List ℕ
ipv4_localhost = 127 ∷ 0 ∷ 0 ∷ 1 ∷ []

abbrev pub ipv6_localhost : List ℕ
ipv6_localhost = 0 ∷ 0 ∷ 0 ∷ 0 ∷ 0 ∷ 0 ∷ 0 ∷ 1 ∷ []

module _ (lib : Libs) where
  -- The match on the scheme and the host.
  abbrev pub safe_target : Url → Bool
  safe_target url = elim url.host [
    | none ↦ false
    | some (domain host) ↦ url.scheme == bytes "https" && public_dns_name lib host
    | some (ipv4 ip) ↦ url.scheme == bytes "http" && ip == ipv4_localhost && is_some url.port
    | some (ipv6 ip) ↦ url.scheme == bytes "http" && ip == ipv6_localhost && is_some url.port
  ]

  unfoldable pub safe_redirect : Text → Bool
  safe_redirect raw = elim (lib.parse_url raw) [
    | none ↦ false
    | some url ↦
        not (is_empty raw)
        && leb (length raw) 2048
        && lib.show_url url == raw
        && is_empty url.username
        && not (is_some url.password)
        && not (is_some url.fragment)
        && safe_target url
  ]

  -- The loop over the redirects, after those already taken.
  unfoldable pub read_redirects : List Text → List Json → Result CimdError (List Text)
  read_redirects taken [] = ok taken
  read_redirects taken (value ∷ values) = do
    raw ← ok_or (as_str value) invalid_document
    refuse_if (not (safe_redirect raw) || any (λ r. r == raw) taken) invalid_document
    read_redirects (taken ++ raw ∷ []) values

  -- `validate_document`, once the body is an object.
  unfoldable pub validate_object : Text → HashMap Json → Result CimdError ClientMetadataDocument
  validate_object client_id fields = do
    id_value ← ok_or (get (bytes "client_id") fields) invalid_document
    id ← ok_or (as_str id_value) invalid_document
    name_value ← ok_or (get (bytes "client_name") fields) invalid_document
    name ← ok_or (as_str name_value) invalid_document
    refuse_if (not (id == client_id) || not (safe_name name)) invalid_document
    refuse_if
        (contains_key (bytes "client_secret") fields
          || contains_key (bytes "client_secret_expires_at") fields
          || contains_key (bytes "jwks") fields
          || contains_key (bytes "jwks_uri") fields)
        invalid_document
    refuse_if
        (not (
          is_some_and (is_string (bytes "none")) (get (bytes "token_endpoint_auth_method") fields)))
        invalid_document
    refresh_allowed ← read_grants (get (bytes "grant_types") fields)
    refuse_if (is_some_and bad_response_types (get (bytes "response_types") fields))
        invalid_document
    redirects_value ← ok_or (get (bytes "redirect_uris") fields) invalid_document
    redirects ← ok_or (as_array redirects_value) invalid_document
    refuse_if (is_empty (elements redirects) || ltb max_redirects (length (elements redirects)))
        invalid_document
    redirect_uris ← read_redirects [] (elements redirects)
    ok (record {
      client_id = id;
      client_name = name;
      redirect_uris = redirect_uris;
      refresh_allowed = refresh_allowed;
    })

  unfoldable pub validate_document : Text → Text → Result CimdError ClientMetadataDocument
  validate_document client_id body = do
    entries ← ok_or (lib.parse_object body) invalid_document
    fields ← ok_or (strict_object [] entries) invalid_document
    validate_object client_id fields
