-- ===== src/Cimd/Fetch/Flights.antt =====
-- cimd.rs: the identifiers in flight as a set, under the drop of a flight.
use eri.Common.{
  ◌+◌, ◌≡◌, ◌≢◌, Text, true, false, List, [], ◌∷◌, All, any, length, ◌==◌, text_eq, text_beq_iff,
  arith,
}
use eri.Cimd.Document.Redirects.{Distinct}
use eri.Cimd.Fetch.{without}

abbrev pub NotIn : Text → List Text → Type 0
NotIn x = All (λ y. y ≢ x)

pub NotIn-of_any : (x : Text) (xs : List Text) → any (λ id. id == x) xs ≡ false → NotIn x xs
unfolding any
NotIn-of_any x [] h = tt
NotIn-of_any x (y ∷ ys) h = (ground (arith, text_beq_iff y x), NotIn-of_any x ys (ground arith))

NotIn-without : (x id : Text) (xs : List Text) → NotIn x xs → NotIn x (without id xs)
unfolding without
NotIn-without x id [] h = tt
NotIn-without x id (y ∷ ys) h = ground (arith, NotIn-without x id ys h.1)

pub Distinct-without : (id : Text) (xs : List Text) → Distinct xs → Distinct (without id xs)
unfolding without
Distinct-without id [] h = tt
Distinct-without id (y ∷ ys) h =
    ground (arith, NotIn-without y id ys h.0, Distinct-without id ys h.1)

pub length-without :
    (id : Text) (xs : List Text)
    → any (λ x. x == id) xs ≡ true
    → length (without id xs) + 1 ≡ length xs
unfolding any without
length-without id [] h = cc
length-without id (y ∷ ys) h = ground (arith, length-without id ys)
