-- ===== src/Cimd/Document/Fields.antt =====
-- cimd.rs: what each check of `validate_document` leaves of the fields.
use eri.Common.{
  ◌≤◌, ◌≡◌, inl, inr, Text, bytes, true, none, some, [], Option-cases, length, text_eq,
  text_beq_iff, arith, ok,
}
use eri.Common.HashMap.{HashMap, get}
use eri.External.{Libs, Json, string, array, Items}
use eri.Cimd.Binding.{ClientMetadataDocument}
use eri.Cimd.Document.{
  as_array, elements, read_grants, safe_name, read_redirects, validate_object, max_redirects,
}
use eri.Cimd.Document.Redirects.{string_of_as_str}

module _ (lib : Libs) where
  module _ (client_id : Text) (fields : HashMap Json) (doc : ClientMetadataDocument)
      (run : validate_object lib client_id fields ≡ ok doc) where
    pub validate_object-id :
        (doc.client_id ≡ client_id) × (get (bytes "client_id") fields ≡ some (string client_id))
    unfolding validate_object
    validate_object-id =
        (grind (arith, text_beq_iff), grind (arith, string_of_as_str, text_beq_iff))

    pub validate_object-name :
        (get (bytes "client_name") fields ≡ some (string doc.client_name))
        × (safe_name doc.client_name ≡ true)
    unfolding validate_object
    validate_object-name =
        (grind (arith, string_of_as_str, text_beq_iff), grind (arith, text_beq_iff))

    pub validate_object-public :
        (get (bytes "client_secret") fields ≡ none)
        × (get (bytes "client_secret_expires_at") fields ≡ none)
        × (get (bytes "jwks") fields ≡ none)
        × (get (bytes "jwks_uri") fields ≡ none)
        × (get (bytes "token_endpoint_auth_method") fields ≡ some (string (bytes "none")))
    unfolding validate_object
    validate_object-public = (
      ground arith,
      ground arith,
      ground arith,
      ground arith,
      grind (arith, string_of_as_str, text_beq_iff),
    )

    pub validate_object-redirects :
        (items : Items) × (get (bytes "redirect_uris") fields ≡ some (array items))
        × (read_redirects lib [] (elements items) ≡ ok doc.redirect_uris)
        × (1 ≤ length (elements items))
        × (length (elements items) ≤ max_redirects)
    unfolding validate_object
    validate_object-redirects = elim (Option-cases (get (bytes "redirect_uris") fields)) [
      | inl missing ↦ absurd (ground arith)
      | inr (value, found) ↦ elim (Option-cases (as_array value)) [
        | inl other ↦ absurd (ground arith)
        | inr (items, is_items) ↦ (items, ground arith, ground arith, ground arith, ground arith)
      ]
    ]

    pub validate_object-grants :
        read_grants (get (bytes "grant_types") fields) ≡ ok doc.refresh_allowed
    unfolding validate_object
    validate_object-grants = ground arith
