-- ===== src/Cimd/Document/Accepted.antt =====
-- cimd.rs: what `validate_document` guarantees of a document that it accepts.
use eri.Common.{
  ◌⊎◌, ◌↔◌, ◌≢◌, All, Bool-cases, ◌==◌, true, ◌≤◌, ◌≡◌, inl, inr, ap, Text, bytes, Option, none,
  some, List, [], ◌∷◌, In, any, Option-cases, map, length, text_eq, text_beq_iff, arith, ok,
}
use eri.Common.HashMap.{HashMap, get-insert, get, insert}
use eri.External.{Libs, Json, string, array, Items}
use eri.Cimd.Binding.{ClientMetadataDocument}
use eri.Cimd.Document.{
  is_string, as_array, elements, read_grants, safe_name, validate_object, validate_document,
  strict_object, max_redirects,
}
use eri.Cimd.Document.Redirects.{Distinct, AreSafe, length-map, read_redirects-lem}
use eri.Cimd.Document.Fields.{
  validate_object-id, validate_object-name, validate_object-public, validate_object-redirects,
  validate_object-grants,
}

-- The field `grant_types` is an array with both grants.
abbrev pub StatesRefresh : Option Json → Type 0
StatesRefresh field =
    (items : Items) × (field ≡ some (array items))
    × (any (is_string (bytes "refresh_token")) (elements items) ≡ true)
    × (any (is_string (bytes "authorization_code")) (elements items) ≡ true)

read_grants-StatesRefresh :
    (field : Option Json) → read_grants field ≡ ok true → StatesRefresh field
unfolding read_grants
read_grants-StatesRefresh none run = cc
read_grants-StatesRefresh (some value) run = elim (Option-cases (as_array value)) [
  | inl other ↦ absurd (ground arith)
  | inr (items, is_items) ↦ (items, ground arith, ground arith, ground arith)
]

-- Once an entry is read, no later one changes its field.
strict_object-keeps :
    (fields out : HashMap Json) (entries : List (Text × Json)) (k : Text) (v : Json)
    → strict_object fields entries ≡ some out
    → get k fields ≡ some v
    → get k out ≡ some v
unfolding strict_object
strict_object-keeps fields out [] k v run h = ground arith
strict_object-keeps fields out ((j, w) ∷ entries) k v run h =
    strict_object-keeps (insert j w fields) out entries k v (ground arith)
      (ground (arith, get-insert j k w fields, text_beq_iff j k))

strict_object-reads :
    (fields out : HashMap Json) (entries : List (Text × Json)) (k : Text) (v : Json)
    → strict_object fields entries ≡ some out
    → In (k, v) entries
    → get k out ≡ some v
unfolding strict_object
strict_object-reads fields out [] k v run i = elim i [ ]
strict_object-reads fields out ((j, w) ∷ entries) k v run (inl same) =
    strict_object-keeps (insert j w fields) out entries k v (ground arith)
      (ground (arith, get-insert j k w fields, text_beq_iff j k))
strict_object-reads fields out ((j, w) ∷ entries) k v run (inr later) =
    strict_object-reads (insert j w fields) out entries k v (ground arith) later

-- Every field that is read was there before, or is an entry.
strict_object-adds :
    (fields out : HashMap Json) (entries : List (Text × Json)) (k : Text) (v : Json)
    → strict_object fields entries ≡ some out
    → get k out ≡ some v
    → (get k fields ≡ some v) ⊎ In (k, v) entries
unfolding strict_object
strict_object-adds fields out [] k v run h = inl (ground arith)
strict_object-adds fields out ((j, w) ∷ entries) k v run h =
    elim (strict_object-adds (insert j w fields) out entries k v (ground arith) h) [
      | inr later ↦ inr (inr later)
      | inl stored ↦ elim (Bool-cases (j == k)) [
        | inl same ↦
            let value : w ≡ v = ground (arith, get-insert j k w fields) in
            inr (inl (cc ((text_beq_iff j k).0 same, value)))
        | inr other ↦ inl (ground (arith, get-insert j k w fields))
      ]
    ]

-- No entry names a field that was there, or that an earlier entry names.
fresh_before :
    (j : Text) (w : Json) (fields : HashMap Json) (names : List Text)
    → All (λ k. get k (insert j w fields) ≡ none) names
    → All (λ k. get k fields ≡ none) names × All (λ k. k ≢ j) names
fresh_before j w fields [] h = (tt, tt)
fresh_before j w fields (k ∷ names) h =
    let (before, apart) = fresh_before j w fields names h.1 in
    (
      (ground (arith, get-insert j k w fields, h.0), before),
      (ground (arith, get-insert j k w fields, h.0, text_beq_iff j k), apart),
    )

abbrev pub names_of : List (Text × Json) → List Text
names_of entries = map (λ e. e.0) entries

strict_object-Distinct :
    (fields out : HashMap Json) (entries : List (Text × Json))
    → strict_object fields entries ≡ some out
    → All (λ k. get k fields ≡ none) (names_of entries) × Distinct (names_of entries)
unfolding strict_object
strict_object-Distinct fields out [] run = (tt, tt)
strict_object-Distinct fields out ((j, w) ∷ entries) run =
    let (fresh, distinct) = strict_object-Distinct (insert j w fields) out entries (ground arith) in
    let (before, apart) = fresh_before j w fields (names_of entries) fresh in
    ((ground arith, before), (apart, distinct))

module _ (lib : Libs) where
  -- What an accepted document has in its fields, and in its redirects.
  pub record IsAccepted (client_id : Text) (fields : HashMap Json) (doc : ClientMetadataDocument)
      : Type 0 where
    pub same_id : doc.client_id ≡ client_id
    pub id_field : get (bytes "client_id") fields ≡ some (string client_id)
    pub name_field : get (bytes "client_name") fields ≡ some (string doc.client_name)
    pub name_is_safe : safe_name doc.client_name ≡ true
    pub no_secret : get (bytes "client_secret") fields ≡ none
    pub no_secret_expiry : get (bytes "client_secret_expires_at") fields ≡ none
    pub no_keys : get (bytes "jwks") fields ≡ none
    pub no_keys_uri : get (bytes "jwks_uri") fields ≡ none
    pub public_client :
        get (bytes "token_endpoint_auth_method") fields ≡ some (string (bytes "none"))
    pub items : Items
    pub redirect_field : get (bytes "redirect_uris") fields ≡ some (array items)
    pub same_redirects : map string doc.redirect_uris ≡ elements items
    pub some_redirect : 1 ≤ length doc.redirect_uris
    pub bounded : length doc.redirect_uris ≤ max_redirects
    pub safe_redirects : AreSafe lib doc.redirect_uris
    pub distinct : Distinct doc.redirect_uris
    pub grants : doc.refresh_allowed ≡ true → StatesRefresh (get (bytes "grant_types") fields)

  validate_object-IsAccepted :
      (client_id : Text) (fields : HashMap Json) (doc : ClientMetadataDocument)
      → validate_object lib client_id fields ≡ ok doc
      → IsAccepted client_id fields doc
  validate_object-IsAccepted client_id fields doc run =
      let (same_id, id_field) = validate_object-id lib client_id fields doc run in
      let (name_field, name_is_safe) = validate_object-name lib client_id fields doc run in
      let (no_secret, no_expiry, no_keys, no_keys_uri, is_public) =
        validate_object-public lib client_id fields doc run in
      let (items, redirect_field, read, least, most) =
        validate_object-redirects lib client_id fields doc run in
      let (safe, distinct, order) =
        read_redirects-lem lib [] (elements items) doc.redirect_uris read tt tt in
      record {
        same_id = same_id;
        id_field = id_field;
        name_field = name_field;
        name_is_safe = name_is_safe;
        no_secret = no_secret;
        no_secret_expiry = no_expiry;
        no_keys = no_keys;
        no_keys_uri = no_keys_uri;
        public_client = is_public;
        items = items;
        redirect_field = redirect_field;
        same_redirects = order;
        some_redirect = omega (arith, length-map doc.redirect_uris, ap length order);
        bounded = omega (arith, length-map doc.redirect_uris, ap length order);
        safe_redirects = safe;
        distinct = distinct;
        grants = λ allowed.
            read_grants-StatesRefresh (get (bytes "grant_types") fields)
              (ground (arith, validate_object-grants lib client_id fields doc run));
      }

  -- An accepted body: an object in which no field is named twice, whose fields are its entries and no
  -- others, and that IsAccepted.
  pub record Accepts (client_id body : Text) (doc : ClientMetadataDocument) : Type 0 where
    pub entries : List (Text × Json)
    pub fields : HashMap Json
    pub parsed : lib.parse_object body ≡ some entries
    pub no_duplicates : Distinct (names_of entries)
    pub exact : (k : Text) (v : Json) → In (k, v) entries ↔ (get k fields ≡ some v)
    pub is_accepted : IsAccepted client_id fields doc

  -- An accepted document is an object in which no field is named twice, equal values included; its fields are its entries and no others. It states the expected identifier, a safe name, a public client without secrets or keys, and from one to sixteen distinct safe redirects, kept in their order; refresh is allowed only if it lists that grant beside the code's.
  pub validate_document-Accepts :
      (client_id body : Text) (doc : ClientMetadataDocument)
      → validate_document lib client_id body ≡ ok doc
      → Accepts client_id body doc
  unfolding validate_document get
  validate_document-Accepts client_id body doc run = elim (Option-cases (lib.parse_object body)) [
    | inl refused ↦ absurd (ground arith)
    | inr (entries, parsed) ↦ elim (Option-cases (strict_object [] entries)) [
      | inl duplicate ↦ absurd (ground arith)
      | inr (fields, strict) ↦ record {
        entries = entries;
        fields = fields;
        parsed = parsed;
        no_duplicates = (strict_object-Distinct [] fields entries strict).1;
        exact = λ k v. (
          λ i. strict_object-reads [] fields entries k v strict i,
          λ h. elim (strict_object-adds [] fields entries k v strict h) [
            | inl before ↦ absurd (ground arith)
            | inr i ↦ i
          ],
        );
        is_accepted = validate_object-IsAccepted client_id fields doc (ground arith);
      }
    ]
  ]
