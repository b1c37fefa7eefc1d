-- ===== src/Table.antt =====
-- A database table behind a SQLAlchemy `Session`. The database and SQLAlchemy are not code of this
-- repository, so a table is a parameter: its state, its rows, and the calls that the repositories
-- make. `IsTable` states the documented behaviour that the repositories rely on.
mod Rows
pub mod Memory
use car_pay_in.Base.{All, Bool, List, Option, [], length, true, ℕ, ◌*◌, ◌++◌, ◌∷◌, ◌≡◌, ◌≤◌}
use car_pay_in.DateTime.{DateTime}
unfoldable pub use Rows.*

pub record Table (Row : Type 0) : Type 1 where
  pub State : Type 0
  -- `SELECT * FROM t`
  pub rows : State → List Row
  -- `session.scalar(select(T).where(p))`, and `session.get(T, key)` at the test of the key
  pub scalar : (Row → Bool) → State → Option Row
  -- `session.add(row)` and `session.commit()`, of a row that meets the declared constraints
  pub insert : Row → State → State
  -- assignment to the columns of the rows that pass the test, and `session.commit()`
  pub update : (Row → Bool) → (Row → Row) → State → State

pub record IsTable {Row : Type 0} (T : Table Row) : Type 0 where
  pub scalar-rows : (p : Row → Bool) (s : T.State) → T.scalar p s ≡ first p (T.rows s)
  pub rows-insert : (r : Row) (s : T.State) → T.rows (T.insert r s) ≡ T.rows s ++ r ∷ []
  pub rows-update :
      (p : Row → Bool) (f : Row → Row) (s : T.State)
      → T.rows (T.update p f s) ≡ amend p f (T.rows s)

-- `session.scalars(select(T).where(p).order_by(key).with_for_update(skip_locked=True).limit(n))`
-- gives rows of the table that pass the test, at most `n` of them. Rows that another transaction
-- holds are passed over, so which ones is left open.
pub record Batch {Row : Type 0} (T : Table Row) : Type 0 where
  pub scalars : (Row → Bool) → (Row → DateTime) → ℕ → T.State → List Row

pub record IsBatch {Row : Type 0} {T : Table Row} (B : Batch T) : Type 1 where
  pub scalars_sound :
      (P : Row → Type 0) (p : Row → Bool) (key : Row → DateTime) (n : ℕ) (s : T.State)
      → All P (T.rows s)
      → All (λ r. P r × (p r ≡ true)) (B.scalars p key n s)
  pub scalars_limit :
      (p : Row → Bool) (key : Row → DateTime) (n : ℕ) (s : T.State)
      → length (B.scalars p key n s) ≤ n
