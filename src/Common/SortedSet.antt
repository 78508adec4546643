-- ===== src/Common/SortedSet.antt =====
-- Rust's `BTreeSet<String>`: a list in strictly increasing order of the bytes.
pub mod Laws
use Prim.Native.Nat.{ℕ, suc, ◌+◌, ◌≤◌, ◌<◌, compare, Ordering}
use mathlib.Core.Path.{◌≡◌, refl, ap, sym}
use mathlib.Core.Logic.{◌↔◌, ◌≢◌, ◌⊎◌, inl, inr}
use mathlib.Core.Bool.{Bool, true, false, ◌&&◌, ◌||◌}
use mathlib.Core.List.{List, [], ◌∷◌}
use native.Mathlib.Omega.{arith}
use eri.Common.Tests.{Eq, if◌then◌else◌, ◌==◌, beq_refl, eq_of_beq, Bool-cases}
use eri.Common.Lists.{length, any, all, All}
use eri.Common.Bytes.{Text, text_eq, text_beq, text_beq_iff}

-- `Ord for [u8]`: lexicographic.
unfoldable pub cmp : Text → Text → Ordering
cmp [] [] = Ordering.eq
cmp [] (b ∷ t) = Ordering.lt
cmp (a ∷ s) [] = Ordering.gt
cmp (a ∷ s) (b ∷ t) = elim (compare a b) [
  | Ordering.lt ↦ Ordering.lt
  | Ordering.eq ↦ cmp s t
  | Ordering.gt ↦ Ordering.gt
]

-- `BTreeSet::insert`
unfoldable pub insert : Text → List Text → List Text
unfolding cmp
insert a [] = a ∷ []
insert a (x ∷ xs) =
    let rest = insert a xs in
    elim (cmp a x) [ Ordering.lt ↦ a ∷ x ∷ xs | Ordering.eq ↦ x ∷ xs | Ordering.gt ↦ x ∷ rest ]

-- `collect::<BTreeSet<_>>()`
unfoldable pub collect : List Text → List Text
unfolding insert
collect [] = []
collect (x ∷ xs) = insert x (collect xs)

-- `BTreeSet::contains`
unfoldable pub contains : List Text → Text → Bool
contains [] a = false
contains (x ∷ xs) a = x == a || contains xs a

-- `BTreeSet::is_subset`
unfoldable pub is_subset : List Text → List Text → Bool
unfolding contains
is_subset [] ys = true
is_subset (x ∷ xs) ys = contains ys x && is_subset xs ys

-- No text stands twice.
unfoldable pub is_distinct : List Text → Bool
unfolding contains
is_distinct [] = true
is_distinct (x ∷ xs) = (if contains xs x then false else true) && is_distinct xs

pub cmp_refl : (s : Text) → cmp s s ≡ Ordering.eq
unfolding cmp
cmp_refl [] = refl
cmp_refl (a ∷ s) = ground (arith, cmp_refl s)

pub eq_of_cmp : (s t : Text) → cmp s t ≡ Ordering.eq → s ≡ t
unfolding cmp
eq_of_cmp [] [] h = refl
eq_of_cmp [] (b ∷ t) h = cc
eq_of_cmp (a ∷ s) [] h = cc
eq_of_cmp (a ∷ s) (b ∷ t) h = ground (arith, eq_of_cmp s t)

pub cmp_flip : (s t : Text) → cmp s t ≡ Ordering.gt → cmp t s ≡ Ordering.lt
unfolding cmp
cmp_flip [] [] h = cc
cmp_flip [] (b ∷ t) h = cc
cmp_flip (a ∷ s) [] h = refl
cmp_flip (a ∷ s) (b ∷ t) h = ground (arith, cmp_flip s t)

pub cmp_trans :
    (s t u : Text) → cmp s t ≡ Ordering.lt → cmp t u ≡ Ordering.lt → cmp s u ≡ Ordering.lt
unfolding cmp
cmp_trans [] [] u h k = cc
cmp_trans [] (b ∷ t) [] h k = cc
cmp_trans [] (b ∷ t) (c ∷ u) h k = refl
cmp_trans (a ∷ s) [] u h k = cc
cmp_trans (a ∷ s) (b ∷ t) [] h k = cc
cmp_trans (a ∷ s) (b ∷ t) (c ∷ u) h k = ground (arith, cmp_trans s t u)

-- Strictly increasing: every later text is above an earlier one.
abbrev pub IsSorted : List Text → Type 0
IsSorted [] = Unit
IsSorted (x ∷ xs) = All (λ y. cmp x y ≡ Ordering.lt) xs × IsSorted xs

insert-above :
    (b a : Text) (xs : List Text)
    → cmp b a ≡ Ordering.lt
    → All (λ y. cmp b y ≡ Ordering.lt) xs
    → All (λ y. cmp b y ≡ Ordering.lt) (insert a xs)
unfolding insert
insert-above b a [] h k = (h, tt)
insert-above b a (x ∷ xs) h k = ground (arith, insert-above b a xs h k.1)

pub All-trans :
    (a x : Text) (xs : List Text)
    → cmp a x ≡ Ordering.lt
    → All (λ y. cmp x y ≡ Ordering.lt) xs
    → All (λ y. cmp a y ≡ Ordering.lt) xs
All-trans a x [] h k = tt
All-trans a x (y ∷ ys) h k = (cmp_trans a x y h k.0, All-trans a x ys h k.1)

pub insert-IsSorted : (a : Text) (xs : List Text) → IsSorted xs → IsSorted (insert a xs)
unfolding insert
insert-IsSorted a [] s = (tt, tt)
insert-IsSorted a (x ∷ xs) s =
    ground (arith, All-trans a x xs, insert-above x a xs, cmp_flip a x, insert-IsSorted a xs s.1)

pub collect-IsSorted : (xs : List Text) → IsSorted (collect xs)
unfolding collect
collect-IsSorted [] = tt
collect-IsSorted (x ∷ xs) = insert-IsSorted x (collect xs) (collect-IsSorted xs)
