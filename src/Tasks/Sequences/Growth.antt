-- ===== src/Tasks/Sequences/Growth.antt =====
-- Every number is greater than the one before.
use ygvcs_py.Prelude.{ℕ, ◌<◌, List, [], ◌∷◌, String, arith}
use text.Mathlib.TextPositions.{eq_refl}
use ygvcs_py.Store.Tables.{Sequence}
use ygvcs_py.Tasks.Sequences.{next_val}

-- The number that a call gives after another call is greater, whatever the rows are.
pub next_val_grows :
    (id id' : ℕ) (name code : String) (rows : List Sequence)
    → (next_val id name code rows).0 < (next_val id' name code (next_val id name code rows).1).0
unfolding next_val
next_val_grows id id' name code [] = rw (eq_refl name, eq_refl code) (omega arith)
next_val_grows id id' name code (row ∷ rows) = ground (arith, next_val_grows id id' name code rows)
