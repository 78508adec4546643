-- ===== src/Web/Form.antt =====
-- web.rs: forms, cookies and the other headers of a request, as the handlers read them.
pub mod Cookies
use eri.Common.{
  ℕ, zero, suc, ◌+◌, ◌≤◌, ◌≡◌, Text, bytes, Bool, true, false, not, ◌&&◌, ◌||◌, Option, none, some,
  List, [], ◌∷◌, length, is_empty, any, leb, ltb, ◌==◌, text_eq, is_some, Result, ok, err, ◌>>=◌,
  ◌>>◌, refuse_if, if◌then◌else◌, split, split_once, trim, strip_prefix, is_utf8,
}
use eri.External.{Libs}
use eri.Web.Percent.{valid_percent}

abbrev pub Form : Type 0
Form = List (Text × Text)

-- What the handlers read of a header map. A value that is no text is `none`.
pub record HeaderMap : Type 0 where
  pub cookies : List (Option Text)
  pub origins : List (Option Text)
  pub authorization : Option (Option Text)

-- The values of a name.
unfoldable pub values_of : Text → Form → List Text
values_of name [] = []
values_of name (pair ∷ q) =
    let rest = values_of name q in if pair.0 == name then pair.1 ∷ rest else rest

abbrev pub only : List Text → Option Text
only (v ∷ []) = some v
only _ = none

-- The value of a name that stands once.
unfoldable pub one : Form → Text → Option Text
unfolding values_of
one q name = only (values_of name q)

unfoldable pub required : Form → Text → Result Text Text
unfolding one
required q name = elim (one q name) [
  | none ↦ err (bytes "invalid_request")
  | some v ↦ if is_empty v then err (bytes "invalid_request") else ok v
]

unfoldable pub optional : Form → Text → Result Text (Option Text)
unfolding one
optional q name =
    if ltb 1 (length (values_of name q)) then err (bytes "invalid_request") else ok (one q name)

abbrev pub too_long : Text × Text → Bool
too_long pair = ltb 128 (length pair.0) || ltb 2048 (length pair.1)

module _ (lib : Libs) where
  unfoldable pub pairs : Text → ℕ → Result (Unit {0}) Form
  pairs raw max = do
    refuse_if (ltb max (length raw) || not (valid_percent raw)) tt
    let q = lib.parse_form raw
    refuse_if (ltb 32 (length q) || any too_long q) tt
    ok q

  unfoldable pub pairs_bytes : Text → ℕ → Result (Unit {0}) Form
  unfolding pairs
  pairs_bytes body max = do refuse_if (not (is_utf8 body)) tt; pairs body max

-- A text that no client's origin is.
abbrev pub no_origin : Text
no_origin = 0 ∷ []

unfoldable pub origin : HeaderMap → Option Text
origin h = elim h.origins [
  | [] ↦ none
  | first ∷ [] ↦ elim first [ none ↦ some no_origin | some text ↦ some text ]
  | _ ∷ _ ∷ _ ↦ some no_origin
]

unfoldable pub same_origin : HeaderMap → Text → Bool
unfolding origin
same_origin h issuer = elim (origin h) [ none ↦ true | some v ↦ v == issuer ]

abbrev pub bearer_header : Option (Option Text) → Option Text
bearer_header (some (some text)) = strip_prefix (bytes "Bearer ") text
bearer_header _ = none

abbrev pub either : Option Text → Option Text → Option Text
either (some v) none = some v
either none (some v) = some v
either _ _ = none

unfoldable pub bearer : HeaderMap → Form → Option Text
unfolding one
bearer h f = either (bearer_header h.authorization) (one f (bytes "access_token"))

unfoldable pub take : ℕ → List Text → List Text
take zero xs = []
take (suc n) [] = []
take (suc n) (x ∷ xs) = x ∷ take n xs

-- The inner loop of `cookie`, over the parts of one header; the outer option is `return None`.
unfoldable pub cookie_in : Text → Option Text → List Text → Option (Option Text)
cookie_in name found [] = some found
cookie_in name found (part ∷ parts) = elim (split_once b'=' (trim part)) [
  | none ↦ none
  | some (k, v) ↦
      let skipped = cookie_in name found parts in
      let taken = cookie_in name (some v) parts in
      if k == name then (if is_some found || ltb 512 (length v) then none else taken) else skipped
]

unfoldable pub cookie_from : Text → Option Text → List (Option Text) → Option (Option Text)
unfolding cookie_in
cookie_from name found [] = some found
cookie_from name found (none ∷ values) = none
cookie_from name found (some text ∷ values) =
    if ltb 4096 (length text)
    then none
    else elim (cookie_in name found (take 32 (split b';' text))) [
      | none ↦ none
      | some next ↦ cookie_from name next values
    ]

unfoldable pub cookie : HeaderMap → Text → Option Text
unfolding cookie_from
cookie h name = elim (cookie_from name none h.cookies) [ none ↦ none | some found ↦ found ]

abbrev pub session_cookie : Bool → Text
session_cookie secure = if secure then bytes "__Host-eri_session" else bytes "eri_dev_session"
