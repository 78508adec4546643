-- ===== src/Web/Form/Cookies.antt =====
-- web.rs: the value that `cookie` finds.
use eri.Common.{
  ◌≡◌, Text, ◌||◌, Option, none, some, List, [], ◌∷◌, ◌++◌, refl, length, ltb, text_eq, is_some,
  if◌then◌else◌, arith, split, split_once, trim, Option-cases, inl, inr,
}
use eri.Web.Form.{Form, HeaderMap, values_of, only, one, take, cookie_in, cookie_from, cookie}

-- The reference: all names and values of the headers, if every part has both.
unfoldable parts_of : List Text → Option Form
parts_of [] = some []
parts_of (part ∷ parts) = elim (split_once b'=' (trim part)) [
  | none ↦ none
  | some pair ↦ elim (parts_of parts) [ none ↦ none | some rest ↦ some (pair ∷ rest) ]
]

unfoldable pub cookies_of : List (Option Text) → Option Form
unfolding parts_of
cookies_of [] = some []
cookies_of (none ∷ values) = none
cookies_of (some text ∷ values) =
    if ltb 4096 (length text) then none else elim (parts_of (take 32 (split b';' text))) [
      | none ↦ none
      | some here ↦ elim (cookies_of values) [ none ↦ none | some rest ↦ some (here ++ rest) ]
    ]

-- What the loops find in the values of the name, after what they have found before.
unfoldable found_after : Option Text → List Text → Option (Option Text)
found_after found [] = some found
found_after found (v ∷ vs) =
    let rest = found_after (some v) vs in if is_some found || ltb 512 (length v) then none else rest

abbrev and_then : Option (Option Text) → List Text → Option (Option Text)
and_then none vs = none
and_then (some found) vs = found_after found vs

found_after-append :
    (found : Option Text) (xs ys : List Text)
    → found_after found (xs ++ ys) ≡ and_then (found_after found xs) ys
unfolding found_after
found_after-append found [] ys = refl
found_after-append found (v ∷ xs) ys = ground (arith, found_after-append (some v) xs ys)

module _ (name : Text) where
  values_of-append : (p q : Form) → values_of name (p ++ q) ≡ values_of name p ++ values_of name q
  unfolding values_of
  values_of-append [] q = refl
  values_of-append (pair ∷ p) q = ground (arith, values_of-append p q)

  abbrev finds : Option Text → Option Form → Option (Option Text)
  finds found none = none
  finds found (some q) = found_after found (values_of name q)

  cookie_in-finds :
      (found : Option Text) (parts : List Text)
      → cookie_in name found parts ≡ finds found (parts_of parts)
  unfolding parts_of cookie_in values_of found_after
  cookie_in-finds found [] = refl
  cookie_in-finds found (part ∷ parts) = elim (Option-cases (split_once b'=' (trim part))) [
    | inl malformed ↦ ground arith
    | inr ((k, v), read) ↦ elim (Option-cases (parts_of parts)) [
      | inl later ↦ ground (arith, cookie_in-finds found parts, cookie_in-finds (some v) parts)
      | inr (q, rest) ↦ ground (arith, cookie_in-finds found parts, cookie_in-finds (some v) parts)
    ]
  ]

  cookie_from-finds :
      (found : Option Text) (values : List (Option Text))
      → cookie_from name found values ≡ finds found (cookies_of values)
  unfolding cookie_from cookies_of values_of found_after
  cookie_from-finds found [] = refl
  cookie_from-finds found (none ∷ values) = refl
  cookie_from-finds found (some text ∷ values) =
      let first = take 32 (split b';' text) in
      elim (Option-cases (parts_of first)) [
        | inl malformed ↦ ground (arith, cookie_in-finds found first)
        | inr (here, read) ↦ elim (Option-cases (found_after found (values_of name here))) [
          | inl refused ↦ elim (Option-cases (cookies_of values)) [
            | inl malformed ↦ ground (arith, cookie_in-finds found first)
            | inr (rest, others) ↦ ground (
              arith,
              cookie_in-finds found first,
              values_of-append here rest,
              found_after-append found (values_of name here) (values_of name rest),
            )
          ]
          | inr (next, passed) ↦ elim (Option-cases (cookies_of values)) [
            | inl malformed ↦
                ground (arith, cookie_in-finds found first, cookie_from-finds next values)
            | inr (rest, others) ↦ ground (
              arith,
              cookie_in-finds found first,
              cookie_from-finds next values,
              values_of-append here rest,
              found_after-append found (values_of name here) (values_of name rest),
            )
          ]
        ]
      ]

-- The loop, where the names and values are known.
abbrev pub cookie_value : Option Form → Text → Option Text
cookie_value none name = none
cookie_value (some q) name = elim (one q name) [
  | none ↦ none
  | some v ↦ if ltb 512 (length v) then none else some v
]

abbrev flatten : Option (Option Text) → Option Text
flatten none = none
flatten (some found) = found

abbrev short : Option Text → Option Text
short none = none
short (some v) = if ltb 512 (length v) then none else some v

flatten-found_after : (vs : List Text) → flatten (found_after none vs) ≡ short (only vs)
unfolding found_after
flatten-found_after [] = refl
flatten-found_after (v ∷ []) = ground arith
flatten-found_after (v ∷ w ∷ vs) = ground arith

-- The value of a cookie is that of the reference: every part of every header is a name with a value, at most 32 parts of a header being read, the name stands once among all of them, and its value has at most 512 bytes.
pub cookie-eq-reference :
    (h : HeaderMap) (name : Text) → cookie h name ≡ cookie_value (cookies_of h.cookies) name
unfolding cookie one
cookie-eq-reference h name = elim (Option-cases (cookies_of h.cookies)) [
  | inl malformed ↦ ground (arith, cookie_from-finds name none h.cookies)
  | inr (q, read) ↦
      ground (arith, cookie_from-finds name none h.cookies, flatten-found_after (values_of name q))
]
