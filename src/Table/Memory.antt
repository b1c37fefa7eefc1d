-- ===== src/Table/Memory.antt =====
-- A table kept as the list of its rows. It shows that the laws of a table can hold.
use car_pay_in.Base.{
  All, Bool, Bool-cases, List, [], arith, if◌then◌else◌, inl, inr, length, refl, suc, true, zero, ℕ,
  ◌++◌, ◌∷◌, ◌≡◌, ◌≤◌,
}
use car_pay_in.Table.{Batch, IsBatch, IsTable, Table, amend, first}

module _ {Row : Type 0} where
  abbrev pub memory_table : Table Row
  memory_table = record {
    State = List Row;
    rows = λ s. s;
    scalar = λ p s. first p s;
    insert = λ r s. s ++ r ∷ [];
    update = λ p f s. amend p f s;
  }

  pub memory_table-IsTable : IsTable memory_table
  memory_table-IsTable = record {
    scalar-rows = λ p s. refl;
    rows-insert = λ r s. refl;
    rows-update = λ p f s. refl;
  }

module _ {Row : Type 0} where
  -- the first `n` rows that pass, in the order of their insertion
  abbrev oldest : (Row → Bool) → ℕ → List Row → List Row
  oldest p zero rs = []
  oldest p (suc n) [] = []
  oldest p (suc n) (r ∷ rs) = if p r then r ∷ oldest p n rs else oldest p (suc n) rs

  abbrev pub memory_batch : Batch (memory_table {Row = Row})
  memory_batch = record { scalars = λ p _ n s. oldest p n s }

  oldest_sound :
      (P : Row → Type 0) (p : Row → Bool) (n : ℕ) (rs : List Row)
      → All P rs
      → All (λ r. P r × (p r ≡ true)) (oldest p n rs)
  oldest_sound P p zero rs h = tt
  oldest_sound P p (suc n) [] h = tt
  oldest_sound P p (suc n) (r ∷ rs) h = elim (Bool-cases (p r)) [
    | inl passes ↦ rw passes ((h.0, passes), oldest_sound P p n rs h.1)
    | inr fails ↦ rw fails (oldest_sound P p (suc n) rs h.1)
  ]

  length-oldest : (p : Row → Bool) (n : ℕ) (rs : List Row) → length (oldest p n rs) ≤ n
  length-oldest p zero rs = omega arith
  length-oldest p (suc n) [] = omega arith
  length-oldest p (suc n) (r ∷ rs) = elim (Bool-cases (p r)) [
    | inl passes ↦ rw passes (omega (arith, length-oldest p n rs))
    | inr fails ↦ rw fails (length-oldest p (suc n) rs)
  ]

  pub memory_batch-IsBatch : IsBatch memory_batch
  memory_batch-IsBatch = record {
    scalars_sound = λ P p _ n s h. oldest_sound P p n s h;
    scalars_limit = λ p _ n s. length-oldest p n s;
  }
