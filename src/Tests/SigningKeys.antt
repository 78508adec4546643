-- ===== src/Tests/SigningKeys.antt =====
-- Keys that load, and a token that they verify.
use eri.Common.{
  ◌≡◌, Text, bytes, none, some, true, false, [], ◌∷◌, all, any, is_utf8_from, text_beq, split, refl,
  ok, err,
}
use eri.Common.HashMap
use eri.Keys.{
  Manifest, Rsa, Decoder, SigningKeys, invalid, check_kid, parse_private, parse_public,
  read_private_key, add_public, add_entries, load_active, load, has_unsupported_crit, find_key,
  verify,
}
use eri.Keys.Published.{IsLoaded, load-IsLoaded}
use eri.Keys.Verified.{IsVerified, verify-IsVerified}
use eri.Tests.Demo
use eri.Tests.UserInfo.{claims}

-- A file holds its own name, and a key has the file's content for its modulus.
abbrev rsa : Rsa
rsa = record {
  file = λ path. some path;
  private_file = λ path. some (record { regular = true; open_to_others = false; content = path });
  from_pkcs8_pem = λ pem. some (record { n = pem; e = bytes "e" });
  private_pkcs1_pem = λ pem. none;
  from_public_key_pem = λ pem. some (record { n = pem; e = bytes "e" });
  public_pkcs1_pem = λ pem. none;
  bits = λ n. 2048;
  decoding_key = λ pem. some (record { n = pem; e = bytes "e" });
  encoding_key = λ pem. some pem;
  show_jwks = λ keys. some (bytes "{}");
}

abbrev decoder : Decoder
decoder = record {
  header = λ token.
      some (record { alg = bytes "RS256"; typ = some (bytes "at+jwt"); kid = some (bytes "two") });
  parse_json = λ text. none;
  decode = λ token key issuer audience. some claims;
  decode_id = λ token key issuer. none;
}

abbrev manifest_of : Text → Manifest
manifest_of kid = record {
  active = record { kid = bytes "one"; private_key = bytes "a"; public_key = bytes "a" };
  previous = record { kid = kid; public_key = bytes "b" } ∷ [];
  next = [];
}

abbrev keys : SigningKeys
keys = record {
  active_kid = bytes "one";
  encoding = bytes "a";
  decoding =
      (bytes "one", record { n = bytes "a"; e = bytes "e" })
      ∷ (bytes "two", record { n = bytes "b"; e = bytes "e" })
      ∷ [];
  jwks_json = bytes "{}";
}

loads : load Demo.lib rsa (manifest_of (bytes "two")) ≡ ok keys
unfolding load load_active check_kid all read_private_key parse_private parse_public is_utf8_from
    add_public any text_beq add_entries HashMap.insert
loads = refl

repeated : load Demo.lib rsa (manifest_of (bytes "one")) ≡ err (invalid (bytes "duplicate kid"))
unfolding load load_active check_kid all read_private_key parse_private parse_public is_utf8_from
    add_public any text_beq add_entries HashMap.insert
repeated = refl

verified : verify Demo.lib decoder keys (bytes "t") (bytes "i") (bytes "a") ≡ ok claims
unfolding verify find_key has_unsupported_crit split text_beq HashMap.get
verified = refl

load-IsLoaded_example : IsLoaded Demo.lib rsa (manifest_of (bytes "two")) keys
load-IsLoaded_example = load-IsLoaded Demo.lib rsa (manifest_of (bytes "two")) keys loads

verify-IsVerified_example :
    IsVerified Demo.lib rsa decoder
      (manifest_of (bytes "two"))
      keys
      (bytes "t")
      (bytes "i")
      (bytes "a")
      claims
verify-IsVerified_example =
    verify-IsVerified Demo.lib rsa decoder (manifest_of (bytes "two")) keys loads (bytes "t")
      (bytes "i") (bytes "a") claims verified
