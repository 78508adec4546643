-- ===== src/Common/Rows.antt =====
-- How `find` sees the rows of a table after an insertion or an update.
use mathlib.Core.Path.{◌≡◌, refl}
use mathlib.Core.Logic.{inl, inr}
use mathlib.Core.Bool.{Bool, true}
use mathlib.Core.Option.{Option, none, some}
use mathlib.Core.List.{List, [], ◌∷◌}
use native.Mathlib.Omega.{arith}
use eri.Common.Tests.{if◌then◌else◌, Bool-cases}
use eri.Common.Lists.{find, update_where}

module _ {A : Type 0} where
  abbrev pub option_map : (A → A) → Option A → Option A
  option_map f none = none
  option_map f (some a) = some (f a)

  -- The row under an update.
  abbrev pub updated : (A → Bool) → (A → A) → A → A
  updated q f a = if q a then f a else a

  -- An update that keeps the key commutes with the query.
  pub find-update :
      (p q : A → Bool) (f : A → A) (xs : List A)
      → ((a : A) → p (f a) ≡ p a)
      → find p (update_where q f xs) ≡ option_map (updated q f) (find p xs)
  unfolding find update_where
  find-update p q f [] h = refl
  find-update p q f (x ∷ xs) h = ground (arith, h x, find-update p q f xs h)

  -- Whatever the query found is found afterwards, in a later state.
  abbrev pub Persists : (A → A → Type 0) → (A → Bool) → List A → List A → Type 0
  Persists Later p xs ys = (a : A) → find p xs ≡ some a → (b : A) × (find p ys ≡ some b) × Later a b

  pub Persists-update :
      (Later : A → A → Type 0) (p q : A → Bool) (f : A → A) (xs : List A)
      → ((a : A) → p (f a) ≡ p a)
      → ((a : A) → Later a a)
      → ((a : A) → Later a (f a))
      → Persists Later p xs (update_where q f xs)
  Persists-update Later p q f xs key same next a found = elim (Bool-cases (q a)) [
    | inl hit ↦ (f a, ground (arith, find-update p q f xs key), next a)
    | inr miss ↦ (a, ground (arith, find-update p q f xs key), same a)
  ]

  -- An insertion that is made only where no row has the key.
  pub Persists-insert :
      (Later : A → A → Type 0) (p : A → Bool) (row : A) (xs : List A)
      → ((a : A) → Later a a)
      → (p row ≡ true → find p xs ≡ none)
      → Persists Later p xs (row ∷ xs)
  unfolding find
  Persists-insert Later p row xs same free a found = (a, ground (arith, free), same a)

  pub Persists-refl :
      (Later : A → A → Type 0) (p : A → Bool) (xs : List A)
      → ((a : A) → Later a a)
      → Persists Later p xs xs
  Persists-refl Later p xs same a found = (a, found, same a)

  pub Persists-trans :
      (Later : A → A → Type 0) (p : A → Bool) (xs ys zs : List A)
      → ((a b c : A) → Later a b → Later b c → Later a c)
      → Persists Later p xs ys
      → Persists Later p ys zs
      → Persists Later p xs zs
  Persists-trans Later p xs ys zs chain h k a found =
      let (b, found_b, ab) = h a found in
      let (c, found_c, bc) = k b found_b in (c, found_c, chain a b c ab bc)
