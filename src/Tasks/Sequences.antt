-- ===== src/Tasks/Sequences.antt =====
-- app/services/sequence_service.py: numbers for user tasks.
pub mod Growth
use ygvcs_py.Prelude.{
  ℕ, ◌+◌, Bool, ◌&&◌, Option, none, some, List, [], ◌∷◌, String, ◌==◌, if◌then◌else◌, str_eq,
}
use ygvcs_py.Store.Tables.{Sequence, Db}

-- `row.increment or 1`
abbrev pub step_of : Sequence → ℕ
step_of row = if row.increment == 0 then 1 else row.increment

-- The row that the query finds first is counted up in place; without one a row is added, under an
-- id that the id generator made.
unfoldable pub next_val : ℕ → String → String → List Sequence → ℕ × List Sequence
next_val new_id name code [] =
    (1, record { id = new_id; code = code; name = name; current_value = 1; increment = 1 } ∷ [])
next_val new_id name code (row ∷ rows) =
    let value = row.current_value + step_of row in
    let (v, rest) = next_val new_id name code rows in
    if str_eq row.name name && str_eq row.code code
    then (value, record row { current_value = value } ∷ rows)
    else (v, row ∷ rest)

unfoldable pub add_and_get_user_task_id : ℕ → Db → ℕ × Db
unfolding next_val
add_and_get_user_task_id new_id db =
    let (v, rows) = next_val new_id "usertask" "usertask" db.sequences in
    (v, record db { sequences = rows })
