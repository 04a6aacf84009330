-- ===== src/UserTasks/Queue/Flags.antt =====
-- What cancel_task and get_count_task make of the send flags.
use ygvcs_py.Prelude.{
  ℕ, ◌+◌, ◌≡◌, refl, ◌∙◌, ◌⊎◌, inl, inr, Bool, true, false, Option, none, some, List, [], ◌∷◌,
  String, length, arith, Bool-cases, str_eq, eq_iff,
}
use ygvcs_py.Store.Query.{is_text, select, update_by_example, order_asc, order_by}
use ygvcs_py.Store.Query.Sorted.{In, In-select, select-cut}
use ygvcs_py.Store.Query.Rows.{In-update}
use ygvcs_py.Store.Tables.{UserTask, Db}
use ygvcs_py.Store.Repos.{in_values, select_by_device_flag}
use ygvcs_py.UserTasks.Queue.{
  waits_for, cancelled, cancel_task, count_flag, get_count_task_by_type, get_count_task,
}

nothing_waits :
    (imei : ℕ) (rows : List UserTask)
    → select (waits_for imei) (update_by_example cancelled (waits_for imei) rows) ≡ []
unfolding update_by_example
nothing_waits imei [] = unfold select in refl
nothing_waits imei (t ∷ rows) = elim (Bool-cases (waits_for imei t)) [
  | inl w ↦
      rw w (select-cut (waits_for imei) (cancelled t) _ (ground arith) ∙ nothing_waits imei rows)
  | inr n ↦ rw n (select-cut (waits_for imei) t _ n ∙ nothing_waits imei rows)
]

-- After the waiting tasks of a vehicle were cancelled, the search for its waiting tasks finds none;
-- and every row of the table was there before, as it is, or was waiting for that vehicle and is now
-- a cancelled one.
pub cancel_task-rows :
    (imei : ℕ) (db : Db)
    → let db' = (cancel_task (some imei) db).1 in
      (select_by_device_flag imei "1" db' ≡ [])
      × ((t : UserTask)
          → In t db'.user_tasks
          → (In t db.user_tasks × (waits_for imei t ≡ false))
            ⊎ ((u : UserTask) × In u db.user_tasks × (waits_for imei u ≡ true) × (t ≡ cancelled u)))
unfolding cancel_task select_by_device_flag order_asc order_by
cancel_task-rows imei db = (rw (nothing_waits imei db.user_tasks) refl, rows)
  where
    rows :
        (t : UserTask)
        → In t (cancel_task (some imei) db).1.user_tasks
        → (In t db.user_tasks × (waits_for imei t ≡ false))
          ⊎ ((u : UserTask) × In u db.user_tasks × (waits_for imei u ≡ true) × (t ≡ cancelled u))
    rows t m = elim (In-update cancelled (waits_for imei) db.user_tasks t m) [
      | inl (u, found, w, e) ↦ inr (u, found, w, e)
      | inr kept ↦ inl kept
    ]

abbrev counted : Bool → ℕ
counted true = 1
counted false = 0

-- A flag that is one of the three is one of them once.
one_of_three :
    (o : Option String)
    → in_values o ("3" ∷ "4" ∷ "7" ∷ []) ≡ true
    → counted (is_text o "3") + counted (is_text o "4") + counted (is_text o "7") ≡ 1
one_of_three none h = absurd (ground arith)
one_of_three (some v) h = elim (Bool-cases (str_eq v "3")) [
  | inl t ↦ rw ((eq_iff v "3").0 t) refl
  | inr f ↦ elim (Bool-cases (str_eq v "4")) [
    | inl t ↦ rw ((eq_iff v "4").0 t) refl
    | inr g ↦ elim (Bool-cases (str_eq v "7")) [
      | inl t ↦ rw ((eq_iff v "7").0 t) refl
      | inr k ↦ absurd (ground (arith, f, g, k))
    ]
  ]
]

count_step :
    (flag : String) (t : UserTask) (ts : List UserTask)
    → count_flag flag (t ∷ ts) ≡ counted (is_text t.send_flag flag) + count_flag flag ts
unfolding count_flag
count_step flag t ts = elim (Bool-cases (is_text t.send_flag flag)) [
  | inl h ↦ rw h (ground arith)
  | inr h ↦ rw h (ground arith)
]

counts-length :
    (rows : List UserTask)
    → ((t : UserTask) → In t rows → in_values t.send_flag ("3" ∷ "4" ∷ "7" ∷ []) ≡ true)
    → count_flag "3" rows + count_flag "4" rows + count_flag "7" rows ≡ length rows
counts-length [] h = unfold count_flag in refl
counts-length (t ∷ rows) h = omega (
  arith,
  count_step "3" t rows,
  count_step "4" t rows,
  count_step "7" t rows,
  one_of_three t.send_flag (h t (inl refl)),
  counts-length rows (λ u m. h u (inr m)),
)

-- The three numbers of the statistics add up to the number of rows that they are taken from.
pub get_count_task-length :
    (type : Option String) (db : Db)
    → let count = get_count_task type db in
      count.task_over + count.task_fail + count.task_cancel
      ≡ length (get_count_task_by_type type db)
unfolding get_count_task get_count_task_by_type
get_count_task-length type db =
    counts-length (get_count_task_by_type type db)
      (λ t m. let found = (In-select _ db.user_tasks t m).1 in ground (arith, found))
