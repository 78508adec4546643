-- ===== src/Cimd/Binding.antt =====
-- cimd.rs: the validated metadata document, its lease, and its security binding.
use Prim.Native.Nat.{Ordering}
use eri.Common.{
  ℕ, Text, bytes, Bool, true, false, ◌&&◌, List, [], ◌∷◌, map, ltb, nat_beq, starts_with, ◌≡◌, ◌==◌,
  text_eq, text_beq_iff, if◌then◌else◌, ◌↔◌, arith,
}
use eri.Common.SortedSet.{cmp}

pub record ClientMetadataDocument : Type 0 where
  pub client_id : Text
  pub client_name : Text
  pub redirect_uris : List Text
  pub refresh_allowed : Bool

pub data CimdRedirectKind : Type 0 where
  exact native_loopback : CimdRedirectKind

pub record CimdBoundRedirect : Type 0 where
  pub uri : Text
  pub kind : CimdRedirectKind

pub record CimdSecurityBinding : Type 0 where
  pub version : ℕ
  pub client_id : Text
  pub redirects : List CimdBoundRedirect
  pub refresh_allowed : Bool

-- `#[derive(PartialEq)]` on the binding and its parts.
abbrev pub kind_beq : CimdRedirectKind → CimdRedirectKind → Bool
kind_beq exact exact = true
kind_beq native_loopback native_loopback = true
kind_beq _ _ = false

abbrev pub bool_beq : Bool → Bool → Bool
bool_beq true b = b
bool_beq false true = false
bool_beq false false = true

unfoldable pub redirects_beq : List CimdBoundRedirect → List CimdBoundRedirect → Bool
redirects_beq [] [] = true
redirects_beq (a ∷ xs) (b ∷ ys) = a.uri == b.uri && kind_beq a.kind b.kind && redirects_beq xs ys
redirects_beq _ _ = false

unfoldable pub binding_beq : CimdSecurityBinding → CimdSecurityBinding → Bool
binding_beq a b =
    nat_beq a.version b.version
    && a.client_id == b.client_id
    && redirects_beq a.redirects b.redirects
    && bool_beq a.refresh_allowed b.refresh_allowed

redirects_beq_iff : (xs ys : List CimdBoundRedirect) → (redirects_beq xs ys ≡ true) ↔ (xs ≡ ys)
unfolding redirects_beq
redirects_beq_iff [] [] = ground arith
redirects_beq_iff [] (b ∷ ys) = ground arith
redirects_beq_iff (a ∷ xs) [] = ground arith
redirects_beq_iff (a ∷ xs) (b ∷ ys) =
    ground (arith, redirects_beq_iff xs ys, text_beq_iff a.uri b.uri)

pub binding_beq_iff : (a b : CimdSecurityBinding) → (binding_beq a b ≡ true) ↔ (a ≡ b)
unfolding binding_beq
binding_beq_iff a b =
    ground (arith, redirects_beq_iff a.redirects b.redirects, text_beq_iff a.client_id b.client_id)

-- The stable sort of the redirects by the bytes of their URIs.
unfoldable pub insert_redirect : CimdBoundRedirect → List CimdBoundRedirect → List CimdBoundRedirect
insert_redirect a [] = a ∷ []
insert_redirect a (x ∷ xs) =
    let rest = insert_redirect a xs in
    elim (cmp a.uri x.uri) [ Ordering.gt ↦ x ∷ rest | _ ↦ a ∷ x ∷ xs ]

unfoldable pub sort_redirects : List CimdBoundRedirect → List CimdBoundRedirect
sort_redirects [] = []
sort_redirects (x ∷ xs) = insert_redirect x (sort_redirects xs)

abbrev pub bind_redirect : Text → CimdBoundRedirect
bind_redirect uri = record {
  uri = uri;
  kind = if starts_with (bytes "http://") uri then native_loopback else exact;
}

-- `ClientMetadataDocument::security_binding`
unfoldable pub security_binding : ClientMetadataDocument → Bool → CimdSecurityBinding
security_binding doc server_allows_refresh = record {
  version = 1;
  client_id = doc.client_id;
  redirects = sort_redirects (map bind_redirect doc.redirect_uris);
  refresh_allowed = doc.refresh_allowed && server_allows_refresh;
}

-- `valid_until` is a reading of the monotonic clock.
pub record LeasedClientMetadata : Type 0 where
  pub document : ClientMetadataDocument
  pub valid_until : ℕ

-- `LeasedClientMetadata::is_fresh`, at the clock's reading `instant`.
abbrev pub is_fresh : LeasedClientMetadata → ℕ → Bool
is_fresh lease instant = ltb instant lease.valid_until
