-- ===== src/Common/HashMap.antt =====
-- Rust's `HashMap<String, V>` as an association list. No operation of the program depends on the
-- order of the entries.
use mathlib.Core.Path.{◌≡◌, refl}
use mathlib.Core.Bool.{Bool}
use mathlib.Core.Option.{Option, none, some}
use mathlib.Core.List.{List, [], ◌∷◌, map}
use Prim.Native.Nat.{ℕ, zero, suc, ◌+◌, ◌≤◌}
use native.Mathlib.Omega.{arith}
use eri.Common.Tests.{if◌then◌else◌, is_some, ◌==◌}
use eri.Common.Lists.{length, is_empty, All}
use eri.Common.Bytes.{Text, text_eq, text_beq_iff}

abbrev pub HashMap : Type 0 → Type 0
HashMap V = List (Text × V)

module _ {V : Type 0} where
  -- `HashMap::get`
  unfoldable pub get : Text → HashMap V → Option V
  get k [] = none
  get k ((j, v) ∷ m) = if j == k then some v else get k m

  -- `HashMap::contains_key`
  abbrev pub contains_key : Text → HashMap V → Bool
  contains_key k m = is_some (get k m)

  -- `HashMap::insert`
  unfoldable pub insert : Text → V → HashMap V → HashMap V
  insert key value [] = (key, value) ∷ []
  insert key value (entry ∷ rest) =
      if entry.0 == key then (key, value) ∷ rest else entry ∷ insert key value rest

  -- `HashMap::remove`
  unfoldable pub remove : Text → HashMap V → HashMap V
  remove key [] = []
  remove key (entry ∷ rest) =
      let kept = remove key rest in if entry.0 == key then rest else entry ∷ kept

  -- `HashMap::retain`, by a test of the values.
  unfoldable pub retain : (V → Bool) → HashMap V → HashMap V
  retain keep [] = []
  retain keep (entry ∷ rest) =
      let kept = retain keep rest in if keep entry.1 then entry ∷ kept else kept

  -- A key of `HashMap::keys`: the order of the map chooses the position.
  unfoldable pub key_at : ℕ → HashMap V → Option Text
  key_at position [] = none
  key_at zero (entry ∷ rest) = some entry.0
  key_at (suc position) (entry ∷ rest) =
      let later = key_at position rest in if is_empty rest then some entry.0 else later

  -- `HashMap::values`
  abbrev pub values : HashMap V → List V
  values m = map (λ e. e.1) m

  pub get-insert :
      (k j : Text) (v : V) (m : HashMap V)
      → get j (insert k v m) ≡ (if k == j then some v else get j m)
  unfolding get insert
  get-insert k j v [] = refl
  get-insert k j v ((i, w) ∷ m) =
      ground (arith, get-insert k j v m, text_beq_iff k j, text_beq_iff i k, text_beq_iff i j)

  pub length-insert-le : (k : Text) (v : V) (m : HashMap V) → length (insert k v m) ≤ length m + 1
  unfolding insert
  length-insert-le k v [] = omega arith
  length-insert-le k v (entry ∷ m) = ground (arith, length-insert-le k v m)

  pub length-retain-le : (keep : V → Bool) (m : HashMap V) → length (retain keep m) ≤ length m
  unfolding retain
  length-retain-le keep [] = omega arith
  length-retain-le keep (entry ∷ m) = ground (arith, length-retain-le keep m)

  -- Removing a key that the map has makes room for one entry.
  pub length-remove-key_at :
      (position : ℕ) (m : HashMap V) (k : Text)
      → key_at position m ≡ some k
      → length (remove k m) + 1 ≡ length m
  unfolding key_at remove
  length-remove-key_at position [] k h = cc
  length-remove-key_at zero (entry ∷ m) k h = ground (arith, text_beq_iff entry.0 k)
  length-remove-key_at (suc position) (entry ∷ m) k h =
      ground (arith, text_beq_iff entry.0 k, length-remove-key_at position m k)

  pub key_at-empty : (position : ℕ) (m : HashMap V) → key_at position m ≡ none → length m ≡ 0
  unfolding key_at
  key_at-empty position [] h = refl
  key_at-empty zero (entry ∷ m) h = cc
  key_at-empty (suc position) (entry ∷ m) h = ground (arith, key_at-empty position m)

  module _ {κ} (P : Text × V → Type κ) where
    pub All-remove : (k : Text) (m : HashMap V) → All P m → All P (remove k m)
    unfolding remove
    All-remove k [] h = tt
    All-remove k (entry ∷ m) h = ground (arith, All-remove k m h.1)

    pub All-retain : (keep : V → Bool) (m : HashMap V) → All P m → All P (retain keep m)
    unfolding retain
    All-retain keep [] h = tt
    All-retain keep (entry ∷ m) h = ground (arith, All-retain keep m h.1)

    pub All-insert : (k : Text) (v : V) (m : HashMap V) → P (k, v) → All P m → All P (insert k v m)
    unfolding insert
    All-insert k v [] p h = (p, tt)
    All-insert k v (entry ∷ m) p h = ground (arith, All-insert k v m p h.1)
