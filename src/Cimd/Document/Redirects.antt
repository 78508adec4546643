-- ===== src/Cimd/Document/Redirects.antt =====
-- cimd.rs: the redirects of a document, as the loop of `validate_document` takes them.
use eri.Common.{
  suc, ◌≡◌, ◌≢◌, refl, ap, Text, true, false, some, List, [], ◌∷◌, ◌++◌, All, any, sym, subst, map,
  ◌∙◌, length, ◌==◌, text_eq, text_beq_iff, arith, ok,
}
use eri.External.{Libs, Json, string}
use eri.Cimd.Document.{as_str, safe_redirect, read_redirects}
use mathlib.Core.List.{append-nil}

-- No text stands twice.
abbrev pub Distinct : List Text → Type 0
Distinct [] = Unit
Distinct (x ∷ xs) = All (λ y. y ≢ x) xs × Distinct xs

All-concat : (P : Text → Type 0) (xs : List Text) (x : Text) → All P xs → P x → All P (xs ++ x ∷ [])
All-concat P [] x h p = (p, tt)
All-concat P (y ∷ ys) x h p = (h.0, All-concat P ys x h.1 p)

Distinct-concat :
    (xs : List Text) (x : Text)
    → Distinct xs
    → any (λ r. r == x) xs ≡ false
    → Distinct (xs ++ x ∷ [])
unfolding any
Distinct-concat [] x d fresh = (tt, tt)
Distinct-concat (y ∷ ys) x d fresh = (
  All-concat (λ r. r ≢ y) ys x d.0 (ground (arith, text_beq_iff y x)),
  Distinct-concat ys x d.1 (ground arith),
)

pub string_of_as_str : (value : Json) (s : Text) → as_str value ≡ some s → value ≡ string s
string_of_as_str value s e = ground arith

pub length-map : (xs : List Text) → length (map string xs) ≡ length xs
length-map [] = refl
length-map (x ∷ xs) = ap suc (length-map xs)

map-concat :
    (xs : List Text) (x : Text) (ys : List Json)
    → map string (xs ++ x ∷ []) ++ ys ≡ map string xs ++ string x ∷ ys
map-concat [] x ys = refl
map-concat (y ∷ xs) x ys = ap (λ t. string y ∷ t) (map-concat xs x ys)

module _ (lib : Libs) where
  abbrev pub AreSafe : List Text → Type 0
  AreSafe = All (λ raw. safe_redirect lib raw ≡ true)

  read_redirects-cons :
      (taken : List Text) (value : Json) (values : List Json) (uris : List Text)
      → read_redirects lib taken (value ∷ values) ≡ ok uris
      → (raw : Text) × (value ≡ string raw)
        × (safe_redirect lib raw ≡ true)
        × (any (λ r. r == raw) taken ≡ false)
        × (read_redirects lib (taken ++ raw ∷ []) values ≡ ok uris)
  unfolding read_redirects
  read_redirects-cons taken (string raw) values uris run =
      (raw, refl, ground arith, ground arith, ground arith)
  read_redirects-cons taken _ values uris run = absurd (ground arith)

  -- The loop keeps the redirects in their order, and takes only distinct and safe ones.
  pub read_redirects-lem :
      (taken : List Text) (values : List Json) (uris : List Text)
      → read_redirects lib taken values ≡ ok uris
      → AreSafe taken
      → Distinct taken
      → AreSafe uris × Distinct uris × (map string uris ≡ map string taken ++ values)
  unfolding read_redirects
  read_redirects-lem taken [] uris run safe distinct =
      let e : taken ≡ uris = ground arith in
      (
        subst AreSafe e safe,
        subst Distinct e distinct,
        ap (map string) (sym e) ∙ sym (append-nil (map string taken)),
      )
  read_redirects-lem taken (value ∷ values) uris run safe distinct =
      let (raw, is_raw, is_safe, fresh, rest) = read_redirects-cons taken value values uris run in
      let (safe', distinct', order) =
        read_redirects-lem (taken ++ raw ∷ []) values uris rest
          (All-concat (λ r. safe_redirect lib r ≡ true) taken raw safe is_safe)
          (Distinct-concat taken raw distinct fresh) in
      (safe', distinct', rw is_raw (order ∙ map-concat taken raw values))
