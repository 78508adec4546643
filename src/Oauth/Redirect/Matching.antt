-- ===== src/Oauth/Redirect/Matching.antt =====
-- oauth.rs: which redirect URIs a registered redirect admits.
use eri.Common.{
  ◌≡◌, ◌↔◌, ◌⊎◌, inl, inr, Text, true, Option, none, some, is_some, is_some_and, ◌==◌, text_eq,
  text_beq_iff, Option-cases, Bool-cases, eq_of_beq, arith,
}
use eri.External.{Libs}
use eri.Oauth.Types.{native_loopback}
use eri.Oauth.Redirect.{
  RegisteredRedirect, same_parts, loopback_parts, safe_redirect, redirect_matches,
}
use eri.Oauth.Redirect.Loopback.{IsLoopback, loopback_parts_iff}

-- Two loopback URIs that differ in the port alone.
abbrev pub DifferInPort : Text → Text → Type 0
DifferInPort ours theirs =
    (host : Text) × (suffix : Text) × IsLoopback ours host suffix × IsLoopback theirs host suffix

same_parts-some :
    (parts : Text × Text) (o : Option (Text × Text))
    → is_some_and (same_parts parts) o ≡ true
    → o ≡ some (parts.0, parts.1)
same_parts-some (h, s) none e = cc
same_parts-some (h, s) (some (h', s')) e = ground (arith, text_beq_iff h h', text_beq_iff s s')

module _ (lib : Libs) (r : RegisteredRedirect) (actual : Text) where
  Admits : Type 0
  Admits =
      (is_some (safe_redirect lib actual) ≡ true)
      × ((r.uri ≡ actual) ⊎ ((r.kind ≡ native_loopback) × DifferInPort r.uri actual))

  matches_sound : redirect_matches lib r actual ≡ true → Admits
  unfolding redirect_matches Admits
  matches_sound h = elim (Option-cases (loopback_parts r.uri)) [
    | inl missing ↦ ground (arith, text_beq_iff r.uri actual)
    | inr ((host, suffix), found) ↦ elim (Bool-cases (r.uri == actual)) [
      | inl same ↦ (ground arith, inl (eq_of_beq r.uri actual same))
      | inr differ ↦ (
        ground arith,
        inr (
          ground arith,
          (
            host,
            suffix,
            (loopback_parts_iff r.uri host suffix).0 found,
            (loopback_parts_iff actual host suffix).0
                (same_parts-some (host, suffix) (loopback_parts actual) (ground arith)),
          ),
        ),
      )
    ]
  ]

  matches_complete : Admits → redirect_matches lib r actual ≡ true
  unfolding redirect_matches Admits
  matches_complete (safe, inl e) = ground (arith, text_beq_iff r.uri actual)
  matches_complete (safe, inr (kind, (host, suffix, ours, theirs))) = ground (
    arith,
    (loopback_parts_iff r.uri host suffix).1 ours,
    (loopback_parts_iff actual host suffix).1 theirs,
    text_beq_iff host host,
    text_beq_iff suffix suffix,
  )

  -- A presented URI matches exactly when it parses without credentials or fragment, and is byte for
  -- byte the registered one or, for a native loopback redirect alone, differs from it in the port.
  pub redirect_matches_iff : (redirect_matches lib r actual ≡ true) ↔ (
      (is_some (safe_redirect lib actual) ≡ true)
      × ((r.uri ≡ actual) ⊎ ((r.kind ≡ native_loopback) × DifferInPort r.uri actual)))
  unfolding Admits
  redirect_matches_iff = (matches_sound, matches_complete)
