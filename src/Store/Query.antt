-- ===== src/Store/Query.antt =====
-- app/repositories/base.py: what a query of one table does, over a table as a list of its rows.
-- The rows stand in the order in which the database hands them out when a query does not ask for
-- one. No theorem limits that order.
pub mod Sorted
pub mod Rows
use ygvcs_py.Prelude.{
  ℕ, zero, suc, Bool, true, false, Option, none, some, List, [], ◌∷◌, ◌++◌, String, leb, ◌==◌,
  if◌then◌else◌, filter_by, first, str_eq, length,
}

-- `column == value` in SQL: no row has it where the column is NULL.
abbrev pub is_text : Option String → String → Bool
is_text none v = false
is_text (some u) v = str_eq u v

abbrev pub is_number : Option ℕ → ℕ → Bool
is_number none n = false
is_number (some m) n = m == n

module _ {ℓ} {A : Type ℓ} where
  -- `select(db, example)`, with the example as a test
  unfoldable pub select : (A → Bool) → List A → List A
  select p rows = filter_by p rows

  unfoldable pub select_one : (A → Bool) → List A → Option A
  unfolding select
  select_one p rows = first (select p rows)

  -- `update_by_example(values, where)`, with the values as a function on the row
  unfoldable pub update_by_example : (A → A) → (A → Bool) → List A → List A
  update_by_example f p [] = []
  update_by_example f p (x ∷ rows) = (if p x then f x else x) ∷ update_by_example f p rows

  -- `delete(example)`
  unfoldable pub delete : (A → Bool) → List A → List A
  delete p [] = []
  delete p (x ∷ rows) = let rest = delete p rows in if p x then rest else x ∷ rest

  -- A stable order: rows of which neither comes first keep the table's order.
  unfoldable pub insert_by : (A → A → Bool) → A → List A → List A
  insert_by before x [] = x ∷ []
  insert_by before x (y ∷ ys) =
      let rest = insert_by before x ys in if before x y then x ∷ y ∷ ys else y ∷ rest

  unfoldable pub order_by : (A → A → Bool) → List A → List A
  unfolding insert_by
  order_by before [] = []
  order_by before (x ∷ xs) = insert_by before x (order_by before xs)

  -- `ORDER BY key` and `ORDER BY key DESC`
  unfoldable pub order_asc : (A → ℕ) → List A → List A
  unfolding order_by
  order_asc key = order_by (λ x y. leb (key x) (key y))

  unfoldable pub order_desc : (A → ℕ) → List A → List A
  unfolding order_by
  order_desc key = order_by (λ x y. leb (key y) (key x))
