-- ===== src/Tasks/Pickup.antt =====
-- app/services/task_op_service.py, edit_and_get_an_task: the next task for a vehicle that is idle.
pub mod Priority
use ygvcs_py.Prelude.{ℕ, Bool, true, false, Option, none, some, List, [], ◌∷◌, if◌then◌else◌, first}
use ygvcs_py.Store.Tables.{UserTask, Db}
use ygvcs_py.Store.Repos.{select_by_device_flag, select_run_task_by_type, select_by_flag_type}
use ygvcs_py.Tasks.Create.{Imei, number, is_busy, discard}

-- `if rows: return rows[0]`, and else what follows
abbrev pub or_else : {A : Type 0} → Option A → Option A → Option A
or_else (some a) later = some a
or_else none later = later

unfoldable pub next_task : ℕ → Db → Option UserTask
next_task imei db = or_else (first (select_by_device_flag imei "1" db)) (
    or_else (first (select_run_task_by_type imei "1" "3" db)) (
      or_else (first (select_by_flag_type "1" "4" true db))
        (first (select_by_flag_type "1" "2" false db))))

unfoldable pub edit_and_get_an_task : ℕ → List Imei → Db → Option UserTask × List Imei
unfolding next_task
edit_and_get_an_task imei busy db =
    if is_busy (number imei) busy
    then (none, busy)
    else (next_task imei db, discard (number imei) (number imei ∷ busy))
