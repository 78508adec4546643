-- ===== src/Tests/Demo.antt =====
-- A concrete instance of the third-party functions, and rows, requests and readings to run on.
use eri.Common.{
  ℕ, zero, suc, ◌≤◌, Text, bytes, true, false, Option, none, some, [], ◌∷◌, length, all, ◌≡◌, refl,
  ◌∙◌, ◌++◌, arith, if◌then◌else◌, strip_prefix, ap, Bool-cases, inl, inr,
}
use eri.Cimd.Binding.{LeasedClientMetadata, security_binding}
use eri.External.{Libs, Url, domain, EncodesDigests, is_base64_url}
use eri.Oauth.Types.{
  exact, native_loopback, app_claimed_https, google_preauthorized, AuthorizationFlow, LogoutFlow,
}
use eri.Oauth.Client.{FirstPartyClient}
use eri.Oauth.Redirect.{RegisteredRedirect}
use eri.Oauth.Registry.{ClientRegistry}
use eri.Oauth.Policy.{AuthorizationRequest, PendingAuthorizationGrant, ValidatedAuthorizationGrant}

abbrev clean : ℕ → ℕ
clean b = if is_base64_url b then b else b'A'

-- The first bytes of a text, each in the alphabet, filled up.
unfoldable pub fill : ℕ → Text → Text
fill zero s = []
fill (suc n) [] = b'A' ∷ fill n []
fill (suc n) (b ∷ s) = clean b ∷ fill n s

length-fill : (n : ℕ) (s : Text) → length (fill n s) ≡ n
unfolding fill
length-fill zero s = refl
length-fill (suc n) [] = ap suc (length-fill n [])
length-fill (suc n) (b ∷ s) = ap suc (length-fill n s)

all-fill : (n : ℕ) (s : Text) → all is_base64_url (fill n s) ≡ true
unfolding fill all
all-fill zero s = refl
all-fill (suc n) [] = ground (arith, all-fill n [])
all-fill (suc n) (b ∷ s) = ground (arith, all-fill n s)

clean-clean : (b : ℕ) → clean (clean b) ≡ clean b
clean-clean b = elim (Bool-cases (is_base64_url b)) [
  | inl good ↦ rw (good, good)
  | inr bad ↦ rw bad refl
]

fill-fill : (n m : ℕ) (s : Text) → n ≤ m → fill n (fill m s) ≡ fill n s
unfolding fill
fill-fill zero m s h = refl
fill-fill (suc n) zero s h = absurd (omega arith)
fill-fill (suc n) (suc m) [] h = ap (λ t. b'A' ∷ t) (fill-fill n m [] (omega arith))
fill-fill (suc n) (suc m) (b ∷ s) h = cc (clean-clean b, fill-fill n m s (omega arith))

-- A URL is read by its scheme alone.
abbrev url_of : Text → Text → Url
url_of scheme path = record {
  scheme = scheme;
  username = [];
  password = none;
  host = some (domain (bytes "a.example"));
  port = none;
  path = path;
  query = none;
  fragment = none;
  cannot_be_a_base = false;
}

abbrev parse : Text → Option Url
parse s = elim (strip_prefix (bytes "https://") s) [
  | some rest ↦ some (url_of (bytes "https") (bytes "/"))
  | none ↦ elim (strip_prefix (bytes "http://") s) [
    | some rest ↦ some (url_of (bytes "http") (bytes "/"))
    | none ↦ none
  ]
]

abbrev pub lib : Libs
lib = record {
  sha256 = fill 32;
  base64_encode = fill 43;
  base64_decode = λ s. some (fill 32 s);
  parse_url = parse;
  join_url = λ base path. some base;
  show_url = λ url. bytes "https://id.example/userinfo";
  show_binding = λ b. b.client_id;
  parse_binding = λ s. none;
  is_ip_address = λ s. false;
  parse_object = λ s. none;
  parse_form = λ s. [];
}

pub lib-EncodesDigests : EncodesDigests lib
lib-EncodesDigests = record {
  digest_size = λ m. length-fill 32 m;
  encoded_size = λ m. length-fill 43 (fill 32 m);
  encoded_alphabet = λ m. all-fill 43 (fill 32 m);
  decode_encode =
      λ m. ap some (fill-fill 32 43 (fill 32 m) (omega arith) ∙ fill-fill 32 32 m (omega arith));
}

abbrev pub verifier : Text
verifier = bytes "abcdefghijklmnopqrstuvwxyz0123456789-._~ABCDE"

abbrev pub challenge : Text
challenge = fill 43 (fill 32 verifier)

abbrev pub app : Text
app = bytes "app"

abbrev pub callback : Text
callback = bytes "https://app.example/cb"

abbrev pub api : Text
api = bytes "https://api.example/"

abbrev pub openid : Text
openid = bytes "openid"

abbrev pub client : FirstPartyClient
client = record {
  id = app;
  display_name = bytes "App";
  redirects = record { uri = callback; kind = app_claimed_https } ∷ [];
  scopes = openid ∷ [];
  resources = api ∷ [];
  default_resource = some api;
  browser_origins = [];
  post_logout_redirects = [];
  authorization_flow = google_preauthorized;
  logout_flow = LogoutFlow.interactive;
}

abbrev pub registry : ClientRegistry
registry = record { clients = (app, client) ∷ []; userinfo_resource = none; dynamic = none }

abbrev pub request : AuthorizationRequest
request = record {
  client_id = app;
  redirect_uri = callback;
  response_type = bytes "code";
  code_challenge_method = bytes "S256";
  code_challenge = challenge;
  scopes = openid ∷ [];
  resource = none;
}

abbrev pub pending : PendingAuthorizationGrant
pending = record {
  client_id = app;
  redirect_uri = callback;
  scopes = openid ∷ [];
  resource = api;
  code_challenge = challenge;
  dynamic = none;
}

abbrev pub grant : ValidatedAuthorizationGrant
grant = record {
  client_id = app;
  redirect_uri = callback;
  scopes = openid ∷ [];
  resource = api;
  code_challenge = challenge;
  issue_refresh_token = false;
  dynamic = none;
}

abbrev pub native : RegisteredRedirect
native = record { uri = bytes "http://127.0.0.1/cb"; kind = native_loopback }

abbrev pub metadata_url : Text
metadata_url = bytes "https://c.example/client.json"

abbrev pub snapshot : LeasedClientMetadata
snapshot = record {
  document = record {
    client_id = metadata_url;
    client_name = bytes "C";
    redirect_uris = callback ∷ [];
    refresh_allowed = false;
  };
  valid_until = 10;
}

abbrev pub projected_client : FirstPartyClient
projected_client = record {
  id = metadata_url;
  display_name = metadata_url ++ (bytes " " ++ (0xc2 ∷ 0xb7 ∷ bytes " nombre declarado: C"));
  redirects = record { uri = callback; kind = exact } ∷ [];
  scopes = openid ∷ [];
  resources = api ∷ [];
  default_resource = none;
  browser_origins = [];
  post_logout_redirects = [];
  authorization_flow = AuthorizationFlow.interactive;
  logout_flow = LogoutFlow.interactive;
}

abbrev pub projected : ClientRegistry
projected = record {
  clients = (app, client) ∷ (metadata_url, projected_client) ∷ [];
  userinfo_resource = none;
  dynamic =
      some (record { snapshot = snapshot; binding = security_binding snapshot.document false });
}
