-- ===== src/Transaction.antt =====
-- A PostgreSQL transaction of the program: how it ends, and what is then committed. An early
-- return, and an explicit rollback, leave the database as it was.
pub mod Ensures
use eri.Common.{
  ℕ, ◌+◌, Text, Bool, true, false, Option, none, some, Result, ok, err, ◌≡◌, refl, ◌⊎◌, inl, inr,
}

pub data Outcome (E D A : Type 0) : Type 0 where
  -- the transaction goes on, or is committed, with this value
  done : A → Outcome E D A
  -- `return Err(e)` with nothing committed
  abort : E → Outcome E D A
  -- `tx.commit()` and then `return Err(e)`
  commit_and_fail : E → D → Outcome E D A

unfoldable pub abort_if : {E D : Type 0} → Bool → E → Outcome E D (Unit {0})
abort_if true e = abort e
abort_if false e = done tt

-- `fetch_one`, or `fetch_optional` and a refusal
unfoldable pub found_or : {E D A : Type 0} → Option A → E → Outcome E D A
found_or none e = abort e
found_or (some a) e = done a

-- A lock on a row that must be there.
unfoldable pub lock : {E D A : Type 0} → Option A → E → Outcome E D (Unit {0})
lock none e = abort e
lock (some a) e = done tt

unfoldable pub attempt : {E D A : Type 0} → Result E A → Outcome E D A
attempt (ok a) = done a
attempt (err e) = abort e

infixl 5 ◌>>=◌ ◌>>◌
-- Opening this opens the four above.
unfoldable pub ◌>>=◌ : {E D A B : Type 0} → Outcome E D A → (A → Outcome E D B) → Outcome E D B
unfolding abort_if found_or lock attempt
done a >>= f = f a
abort e >>= f = abort e
commit_and_fail e d >>= f = commit_and_fail e d

abbrev pub ◌>>◌ : {E D B : Type 0} → Outcome E D (Unit {0}) → Outcome E D B → Outcome E D B
m >> k = m >>= λ _. k

-- What the caller sees, and the database after the call: `before` is the state that the other
-- transactions have left.
abbrev pub settle : {E D A : Type 0} → D → Outcome E D (A × D) → Result E A × D
settle before (done (a, after)) = (ok a, after)
settle before (abort e) = (err e, before)
settle before (commit_and_fail e after) = (err e, after)

-- What the other transactions bring about, and what is read of the clocks and drawn at random,
-- during one call.
pub record Ambient (D : Type 0) : Type 0 where
  -- the readings of the monotonic clock (`Instant::now`) and of `clock_timestamp()`, in order
  pub instant : ℕ → ℕ
  pub wall : ℕ → ℕ
  -- the values of `random_credential` and of `Uuid::new_v4`, in order
  pub secret : ℕ → Text
  pub uuid : ℕ → ℕ
  -- what the transactions of others commit before the locks of each transaction are held
  pub others : ℕ → D → D

-- The rest of a call that has read the monotonic clock once and has finished one transaction.
abbrev pub later : {D : Type 0} → Ambient D → Ambient D
later env = record env { instant = λ k. env.instant (k + 1); others = λ k. env.others (k + 1) }
