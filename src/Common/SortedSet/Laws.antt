-- ===== src/Common/SortedSet/Laws.antt =====
-- The laws of the sorted sets: membership, size, and canonical form.
use Prim.Native.Nat.{suc, ◌≤◌, Ordering}
use mathlib.Core.Path.{◌≡◌, refl}
use mathlib.Core.Logic.{◌↔◌}
use mathlib.Core.Bool.{true, false, ◌||◌}
use mathlib.Core.List.{List, [], ◌∷◌}
use native.Mathlib.Omega.{arith}
use eri.Common.Tests.{if◌then◌else◌, ◌==◌}
use eri.Common.Lists.{length, All}
use eri.Common.Bytes.{Text, text_eq, text_beq_iff}
use eri.Common.SortedSet.{
  cmp, insert, collect, contains, is_subset, is_distinct, cmp_refl, eq_of_cmp, IsSorted,
  collect-IsSorted, cmp_flip, All-trans,
}

pub contains-insert :
    (a b : Text) (xs : List Text) → contains (insert a xs) b ≡ (a == b || contains xs b)
unfolding insert contains
contains-insert a b [] = refl
contains-insert a b (x ∷ xs) =
    ground (arith, contains-insert a b xs, eq_of_cmp a x, text_beq_iff a b, text_beq_iff x b)

pub contains-collect : (xs : List Text) (b : Text) → contains (collect xs) b ≡ contains xs b
unfolding collect contains
contains-collect [] b = refl
contains-collect (x ∷ xs) b = rw (contains-insert x b (collect xs), contains-collect xs b)

-- What is below every element is no element.
pub not-contains-above :
    (a : Text) (xs : List Text) → All (λ y. cmp a y ≡ Ordering.lt) xs → contains xs a ≡ false
unfolding contains
not-contains-above a [] h = refl
not-contains-above a (x ∷ xs) h =
    ground (arith, not-contains-above a xs h.1, text_beq_iff x a, cmp_refl a)

not-contains-below :
    (a x : Text) (xs : List Text)
    → All (λ y. cmp x y ≡ Ordering.lt) xs
    → cmp a x ≡ Ordering.lt
    → contains xs a ≡ false
not-contains-below a x xs h k = not-contains-above a xs (All-trans a x xs k h)

length-insert :
    (a : Text) (xs : List Text)
    → IsSorted xs
    → length (insert a xs) ≡ (if contains xs a then length xs else suc (length xs))
unfolding insert contains
length-insert a [] s = refl
length-insert a (x ∷ xs) s = ground (
  arith,
  length-insert a xs s.1,
  eq_of_cmp a x,
  cmp_refl a,
  text_beq_iff x a,
  not-contains-below a x xs s.0,
  not-contains-above x xs s.0,
)

length-collect-le : (xs : List Text) → length (collect xs) ≤ length xs
unfolding collect
length-collect-le [] = omega arith
length-collect-le (x ∷ xs) =
    ground (arith, length-collect-le xs, length-insert x (collect xs) (collect-IsSorted xs))

-- A set is as long as the list that it was collected from exactly when nothing stood twice.
pub length-collect_iff :
    (xs : List Text) → (length (collect xs) ≡ length xs) ↔ (is_distinct xs ≡ true)
unfolding collect is_distinct
length-collect_iff [] = ground arith
length-collect_iff (x ∷ xs) = ground (
  arith,
  length-collect-le xs,
  length-collect_iff xs,
  contains-collect xs x,
  length-insert x (collect xs) (collect-IsSorted xs),
)

insert_least :
    (a : Text) (xs : List Text) → All (λ y. cmp a y ≡ Ordering.lt) xs → insert a xs ≡ a ∷ xs
unfolding insert
insert_least a [] h = refl
insert_least a (x ∷ xs) h = ground arith

-- A sorted list is the set that is collected from it.
pub collect_sorted : (xs : List Text) → IsSorted xs → collect xs ≡ xs
unfolding collect
collect_sorted [] s = refl
collect_sorted (x ∷ xs) s = rw (collect_sorted xs s.1) (insert_least x xs s.0)

pub is_subset-contains :
    (xs ys : List Text) (a : Text)
    → is_subset xs ys ≡ true
    → contains xs a ≡ true
    → contains ys a ≡ true
unfolding is_subset contains
is_subset-contains [] ys a h k = cc
is_subset-contains (x ∷ xs) ys a h k = ground (arith, is_subset-contains xs ys a, text_beq_iff x a)

pub is_subset_of :
    (xs ys : List Text)
    → ((a : Text) → contains xs a ≡ true → contains ys a ≡ true)
    → is_subset xs ys ≡ true
unfolding is_subset contains
is_subset_of [] ys h = refl
is_subset_of (x ∷ xs) ys h =
    ground (arith, h x, text_beq_iff x x, is_subset_of xs ys (λ a k. h a (ground arith)))

heads_meet :
    (x y : Text) (xs ys : List Text)
    → IsSorted (x ∷ xs)
    → IsSorted (y ∷ ys)
    → ((a : Text) → contains (x ∷ xs) a ≡ contains (y ∷ ys) a)
    → x ≡ y
unfolding contains
heads_meet x y xs ys s t h = ground (
  arith,
  h x,
  h y,
  eq_of_cmp x y,
  cmp_flip x y,
  cmp_refl x,
  text_beq_iff x x,
  text_beq_iff y y,
  text_beq_iff x y,
  text_beq_iff y x,
  not-contains-below x y ys t.0,
  not-contains-below y x xs s.0,
)

tails_agree :
    (x y : Text) (xs ys : List Text)
    → x ≡ y
    → All (λ z. cmp x z ≡ Ordering.lt) xs
    → All (λ z. cmp y z ≡ Ordering.lt) ys
    → ((a : Text) → contains (x ∷ xs) a ≡ contains (y ∷ ys) a)
    → (a : Text) → contains xs a ≡ contains ys a
unfolding contains
tails_agree x y xs ys e s t h a = ground (
  arith,
  h a,
  text_beq_iff x a,
  text_beq_iff y a,
  not-contains-above x xs s,
  not-contains-above y ys t,
)

-- Two sorted lists with the same elements are one list: the set is a canonical form.
pub sorted_ext :
    (xs ys : List Text)
    → IsSorted xs
    → IsSorted ys
    → ((a : Text) → contains xs a ≡ contains ys a)
    → xs ≡ ys
unfolding contains
sorted_ext [] [] s t h = refl
sorted_ext [] (y ∷ ys) s t h = ground (arith, h y, text_beq_iff y y)
sorted_ext (x ∷ xs) [] s t h = ground (arith, h x, text_beq_iff x x)
sorted_ext (x ∷ xs) (y ∷ ys) s t h =
    let e : x ≡ y = heads_meet x y xs ys s t h in
    cc (e, sorted_ext xs ys s.1 t.1 (tails_agree x y xs ys e s.0 t.0 h))
