-- ===== src/Keys.antt =====
-- keys.rs: the signing keys, from their manifest, and the tokens that they verify.
pub mod Published
pub mod Verified
use eri.Common.{
  ℕ, ◌+◌, ◌≡◌, Text, bytes, Bool, true, false, not, ◌&&◌, ◌||◌, Option, none, some, List, [], ◌∷◌,
  ◌++◌, length, is_empty, any, all, leb, ltb, nat_beq, is_ascii_alphanumeric, is_utf8, ◌==◌,
  text_eq, is_some_and, Result, ok, err, ◌>>=◌, ◌>>◌, ok_or, refuse_if, if◌then◌else◌, split,
}
use eri.Common.HashMap
use eri.Common.HashMap.{HashMap}
use eri.Tokens.{AccessClaims, IdClaims}
use eri.External.{Libs, Json}
use eri.Google.Login.{JwtHeader, field, first_segment, states_crit}
use eri.Google.Keys.{DecodingKey}
use eri.Logout.{clock_skew_seconds}

-- `Manifest`, with the paths as they are written.
pub record PublicKey : Type 0 where
  pub kid : Text
  pub public_key : Text

pub record ActiveKey : Type 0 where
  pub kid : Text
  pub private_key : Text
  pub public_key : Text

pub record Manifest : Type 0 where
  pub active : ActiveKey
  pub previous : List PublicKey
  pub next : List PublicKey

-- `Jwk`, less the three fields that are constants.
pub record Jwk : Type 0 where
  pub kid : Text
  pub n : Text
  pub e : Text

pub data KeyError : Type 0 where
  io manifest jwt : KeyError
  invalid : Text → KeyError

-- `RsaPublicKey`: the bytes of its numbers. A private key is known by its public one.
pub record RsaPublicKey : Type 0 where
  pub n : Text
  pub e : Text

-- The file of the private key: whether it is a regular file, whether its mode has a bit of `0o077`,
-- and its content.
pub record PrivateFile : Type 0 where
  pub regular : Bool
  pub open_to_others : Bool
  pub content : Text

-- The crates that read keys, and the files below the manifest's directory.
pub record Rsa : Type 0 where
  pub file : Text → Option Text
  pub private_file : Text → Option PrivateFile
  pub from_pkcs8_pem : Text → Option RsaPublicKey
  pub private_pkcs1_pem : Text → Option RsaPublicKey
  pub from_public_key_pem : Text → Option RsaPublicKey
  pub public_pkcs1_pem : Text → Option RsaPublicKey
  pub bits : Text → ℕ
  pub decoding_key : Text → Option DecodingKey
  pub encoding_key : Text → Option Text
  pub show_jwks : List Jwk → Option Text

-- The crate that reads tokens. `decode` checks the signature, the issuer, the audience and, with a
-- leeway of 30 seconds, the expiry; `decode_id` checks the signature and the issuer.
pub record Decoder : Type 0 where
  pub header : Text → Option JwtHeader
  pub parse_json : Text → Option Json
  pub decode : Text → DecodingKey → Text → Text → Option AccessClaims
  pub decode_id : Text → DecodingKey → Text → Option IdClaims

-- What `load` has gathered: the two sets, the keys that verify, and those to publish.
pub record Gathered : Type 0 where
  pub seen : List Text
  pub seen_material : List (Text × Text)
  pub decoding : HashMap DecodingKey
  pub jwks : List Jwk

pub record SigningKeys : Type 0 where
  pub active_kid : Text
  pub encoding : Text
  pub decoding : HashMap DecodingKey
  pub jwks_json : Text

abbrev is_kid_byte : ℕ → Bool
is_kid_byte c = is_ascii_alphanumeric c || nat_beq c b'-' || nat_beq c b'_' || nat_beq c b'.'

abbrev bad_kid : Text → Bool
bad_kid kid = is_empty kid || ltb 128 (length kid) || not (all is_kid_byte kid)

unfoldable pub check_kid : Text → Result KeyError (Unit {0})
check_kid kid =
    refuse_if (bad_kid kid) (invalid (bytes "kid must be a stable 1-128 character identifier"))

abbrev pub same_key : RsaPublicKey → RsaPublicKey → Bool
same_key a b = a.n == b.n && a.e == b.e

abbrev or_else {ℓ} : {A : Type ℓ} → Option A → Option A → Option A
or_else (some v) other = some v
or_else none other = other

module _ (lib : Libs) (rsa : Rsa) where
  abbrev pub validate_size : RsaPublicKey → Result KeyError (Unit {0})
  validate_size key =
      refuse_if (ltb (rsa.bits key.n) 2048) (invalid (bytes "RSA keys must be at least 2048 bits"))

  unfoldable pub parse_private : Text → Result KeyError RsaPublicKey
  parse_private pem = do
    refuse_if (not (is_utf8 pem)) (invalid (bytes "private key is not UTF-8 PEM"))
    ok_or (or_else (rsa.from_pkcs8_pem pem) (rsa.private_pkcs1_pem pem))
        (invalid (bytes "private key is malformed"))

  unfoldable pub parse_public : Text → Result KeyError RsaPublicKey
  parse_public pem = do
    refuse_if (not (is_utf8 pem)) (invalid (bytes "public key is not UTF-8 PEM"))
    ok_or (or_else (rsa.from_public_key_pem pem) (rsa.public_pkcs1_pem pem))
        (invalid (bytes "public key is malformed"))

  -- `read_private_key`, on Unix.
  unfoldable pub read_private_key : Text → Result KeyError Text
  read_private_key path = do
    file ← ok_or (rsa.private_file path) io
    refuse_if (not file.regular) (invalid (bytes "private key must be a regular file"))
    refuse_if file.open_to_others
        (invalid (bytes "private key permissions permit group or other access"))
    ok file.content

  abbrev pub jwk_of : Text → RsaPublicKey → Jwk
  jwk_of kid key = record { kid = kid; n = lib.base64_encode key.n; e = lib.base64_encode key.e }

  unfoldable pub add_public : Text → RsaPublicKey → Text → Gathered → Result KeyError Gathered
  add_public kid key pem g = do
    refuse_if (any (λ k. k == kid) g.seen) (invalid (bytes "duplicate kid"))
    validate_size key
    refuse_if (any (λ m. m.0 == key.n && m.1 == key.e) g.seen_material)
        (invalid (bytes "duplicate public key material"))
    decoded ← ok_or (rsa.decoding_key pem) jwt
    ok record {
      seen = kid ∷ g.seen;
      seen_material = (key.n, key.e) ∷ g.seen_material;
      decoding = HashMap.insert kid decoded g.decoding;
      jwks = g.jwks ++ (jwk_of kid key ∷ []);
    }

  -- The loop over the previous and the next keys.
  unfoldable pub add_entries : List PublicKey → Gathered → Result KeyError Gathered
  add_entries [] g = ok g
  add_entries (entry ∷ entries) g = do
    _ ← check_kid entry.kid
    pem ← ok_or (rsa.file entry.public_key) io
    key ← parse_public pem
    after ← add_public entry.kid key pem g
    add_entries entries after

  abbrev pub nothing : Gathered
  nothing = record { seen = []; seen_material = []; decoding = []; jwks = [] }

  -- The active key: the content of its private file, and what is gathered with it.
  unfoldable pub load_active : ActiveKey → Result KeyError (Text × Gathered)
  load_active active = do
    _ ← check_kid active.kid
    private_pem ← read_private_key active.private_key
    private ← parse_private private_pem
    validate_size private
    public_pem ← ok_or (rsa.file active.public_key) io
    public ← parse_public public_pem
    refuse_if (not (same_key private public))
        (invalid (bytes "active private and public keys do not match"))
    gathered ← add_public active.kid public public_pem nothing
    ok (private_pem, gathered)

  -- `SigningKeys::load`, once the manifest is read and parsed.
  unfoldable pub load : Manifest → Result KeyError SigningKeys
  load m = do
    (private_pem, first) ← load_active m.active
    gathered ← add_entries (m.previous ++ m.next) first
    encoding ← ok_or (rsa.encoding_key private_pem) jwt
    jwks_json ← ok_or (rsa.show_jwks gathered.jwks) manifest
    ok record {
      active_kid = m.active.kid;
      encoding = encoding;
      decoding = gathered.decoding;
      jwks_json = jwks_json;
    }

module _ (lib : Libs) (jwt_lib : Decoder) where
  unfoldable pub has_unsupported_crit : Text → Bool
  unfolding field
  has_unsupported_crit token = elim (lib.base64_decode (first_segment (split b'.' token))) [
    | none ↦ false
    | some decoded ↦ elim (jwt_lib.parse_json decoded) [
      | none ↦ false
      | some value ↦ states_crit value
    ]
  ]

  -- The guards of both functions on the header, and the key that it names.
  unfoldable pub find_key : SigningKeys → Text → Text → Text → Result KeyError DecodingKey
  find_key keys token typ refusal = do
    header ← ok_or (jwt_lib.header token) jwt
    refuse_if
        (not (header.alg == bytes "RS256")
          || not (is_some_and (λ t. t == typ) header.typ)
          || has_unsupported_crit token)
        (invalid refusal)
    kid ← ok_or header.kid (invalid (bytes "token kid is missing"))
    ok_or (HashMap.get kid keys.decoding) (invalid (bytes "token kid is unknown"))

  unfoldable pub verify : SigningKeys → Text → Text → Text → Result KeyError AccessClaims
  verify keys token issuer audience = do
    key ← find_key keys token (bytes "at+jwt") (bytes "token algorithm or type is invalid")
    ok_or (jwt_lib.decode token key issuer audience) jwt

  -- The times are numbers that are not negative.
  unfoldable pub verify_id_logout : SigningKeys → Text → Text → ℕ → Result KeyError IdClaims
  verify_id_logout keys token issuer now = do
    key ← find_key keys token (bytes "JWT") (bytes "logout hint algorithm or type is invalid")
    claims ← ok_or (jwt_lib.decode_id token key issuer) jwt
    refuse_if
        (is_empty claims.aud
          || leb claims.exp claims.iat
          || ltb (now + clock_skew_seconds) claims.iat)
        (invalid (bytes "logout hint claims are invalid"))
    ok claims
