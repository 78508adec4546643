-- ===== src/Transaction/Ensures.antt =====
-- A postcondition of a transaction: `Q` holds of the value that it goes on with, and `R` of a
-- database that it commits before it fails. One rule for each way to begin a chain.
use eri.Common.{
  Bool, true, false, Option, none, some, Result, ok, err, ◌≡◌, refl, subst, arith, if◌then◌else◌,
}
use eri.Transaction.{
  Outcome, done, abort, commit_and_fail, ◌>>=◌, abort_if, found_or, lock, attempt, settle,
}

pub data Ensures {E D A : Type 0} (Q : A → Type 0) (R : D → Type 0) : Outcome E D A → Type 0 where
  is_done : (a : A) → Q a → Ensures Q R (done a)
  is_abort : (e : E) → Ensures Q R (abort e)
  is_commit : (e : E) (d : D) → R d → Ensures Q R (commit_and_fail e d)

module _ {E D A : Type 0} {Q : A → Type 0} {R : D → Type 0} where
  pub done-Ensures : {m : Outcome E D A} {a : A} → Ensures Q R m → m ≡ done a → Q a
  done-Ensures {a} (is_done b q) e = let same : b ≡ a = cc in subst Q same q
  done-Ensures (is_abort x) e = cc
  done-Ensures (is_commit x d r) e = cc

  pub commit-Ensures :
      {m : Outcome E D A} {x : E} {d : D} → Ensures Q R m → m ≡ commit_and_fail x d → R d
  commit-Ensures (is_done b q) e = cc
  commit-Ensures (is_abort x) e = cc
  commit-Ensures {d} (is_commit x d' r) e = let same : d' ≡ d = cc in subst R same r

  pub if-Ensures :
      (b : Bool) (m n : Outcome E D A)
      → (b ≡ true → Ensures Q R m)
      → (b ≡ false → Ensures Q R n)
      → Ensures Q R (if b then m else n)
  if-Ensures true m n h k = h refl
  if-Ensures false m n h k = k refl

-- The state that is committed, or left.
pub settle-Ensures :
    {E D A : Type 0} {P : D → Type 0} (before : D) (m : Outcome E D (A × D))
    → P before
    → Ensures (λ r. P r.1) P m
    → P (settle before m).1
settle-Ensures before (done (a, after)) h (is_done _ q) = q
settle-Ensures before (abort e) h k = h
settle-Ensures before (commit_and_fail e after) h (is_commit _ _ r) = r

module _ {E D A B : Type 0} {Q : B → Type 0} {R : D → Type 0} where
  pub bind-Ensures :
      {P : A → Type 0} {m : Outcome E D A} (f : A → Outcome E D B)
      → Ensures P R m
      → ((a : A) → P a → Ensures Q R (f a))
      → Ensures Q R (m >>= f)
  unfolding ◌>>=◌
  bind-Ensures f (is_done a p) h = h a p
  bind-Ensures f (is_abort e) h = is_abort e
  bind-Ensures f (is_commit e d r) h = is_commit e d r

  pub attempt-Ensures :
      (m : Result E A) (f : A → Outcome E D B)
      → ((a : A) → m ≡ ok a → Ensures Q R (f a))
      → Ensures Q R (attempt m >>= f)
  unfolding ◌>>=◌
  attempt-Ensures (ok a) f h = h a refl
  attempt-Ensures (err e) f h = is_abort e

  pub found_or-Ensures :
      (o : Option A) (e : E) (f : A → Outcome E D B)
      → ((a : A) → o ≡ some a → Ensures Q R (f a))
      → Ensures Q R (found_or o e >>= f)
  unfolding ◌>>=◌
  found_or-Ensures none e f h = is_abort e
  found_or-Ensures (some a) e f h = h a refl

  pub lock-Ensures :
      (o : Option A) (e : E) (f : Unit {0} → Outcome E D B)
      → ((a : A) → o ≡ some a → Ensures Q R (f tt))
      → Ensures Q R (lock o e >>= f)
  unfolding ◌>>=◌
  lock-Ensures none e f h = is_abort e
  lock-Ensures (some a) e f h = h a refl

module _ {E D B : Type 0} {Q : B → Type 0} {R : D → Type 0} where
  pub abort_if-Ensures :
      (b : Bool) (e : E) (f : Unit {0} → Outcome E D B)
      → (b ≡ false → Ensures Q R (f tt))
      → Ensures Q R (abort_if b e >>= f)
  unfolding ◌>>=◌
  abort_if-Ensures true e f h = is_abort e
  abort_if-Ensures false e f h = h refl

pub weaken-Ensures :
    {E D A : Type 0} {Q Q' : A → Type 0} {R R' : D → Type 0} {m : Outcome E D A}
    → ((a : A) → Q a → Q' a)
    → ((d : D) → R d → R' d)
    → Ensures Q R m
    → Ensures Q' R' m
weaken-Ensures h k (is_done a q) = is_done a (h a q)
weaken-Ensures h k (is_abort e) = is_abort e
weaken-Ensures h k (is_commit e d r) = is_commit e d (k d r)

-- What a call that succeeds has done.
pub settle-eq-ok :
    {E D A : Type 0} (before : D) (m : Outcome E D (A × D)) {a : A} {after : D}
    → settle before m ≡ (ok a, after)
    → m ≡ done (a, after)
settle-eq-ok before (done (b, d)) e = ground arith
settle-eq-ok before (abort x) e = ground arith
settle-eq-ok before (commit_and_fail x d) e = ground arith
