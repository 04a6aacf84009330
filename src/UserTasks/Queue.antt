-- ===== src/UserTasks/Queue.antt =====
-- app/services/user_task.py: the operations on the table of user tasks alone.
pub mod Flags
pub mod Calls
use ygvcs_py.Prelude.{
  ℕ, ◌+◌, Bool, true, false, ◌&&◌, ◌||◌, Option, none, some, List, [], ◌∷◌, ◌++◌, String, ◌==◌,
  if◌then◌else◌, first,
}
use ygvcs_py.Prelude.Raises.{Raises, ok, raised, ◌>>=◌}
use ygvcs_py.Store.Query.{
  is_text, is_number, select, select_one, update_by_example, delete, order_desc,
}
use ygvcs_py.Store.Tables.{UserTask, Db}
use ygvcs_py.Store.Repos.{in_values, select_by_flag_type, select_by_flags_type}
use ygvcs_py.Tasks.Reply.{JsonResult, success, fail, notice}
use ygvcs_py.Tasks.Sequences.{add_and_get_user_task_id}
use ygvcs_py.Tasks.Create.{insert_task}
use ygvcs_py.UserTasks.Orders.{text_or, is_blank, no_user_task}

-- `cancel_task`: the waiting tasks of the vehicle become cancelled ones.
abbrev pub waits_for : ℕ → UserTask → Bool
waits_for imei t = is_number t.device_imei imei && is_text t.send_flag "1"

abbrev pub cancelled : UserTask → UserTask
cancelled t = record t { send_flag = some "7" }

unfoldable pub cancel_task : Option ℕ → Db → JsonResult × Db
unfolding update_by_example
cancel_task none db = (fail "1" (notice "TaskService.sendTask.DeviceImeiNotNull"), db)
cancel_task (some imei) db =
    (success, record db { user_tasks = update_by_example cancelled (waits_for imei) db.user_tasks })

-- The empty example deletes every row.
unfoldable pub clear_task : Db → JsonResult × Db
unfolding delete
clear_task db = (success, record db { user_tasks = delete (λ _. true) db.user_tasks })

unfoldable pub del_user_task : ℕ → Db → JsonResult × Db
unfolding delete
del_user_task id db =
    (success, record db { user_tasks = delete (λ t. t.user_task_id == id) db.user_tasks })

unfoldable pub call_task : (ℕ → String) → ℕ → ℕ → Option String → UserTask
call_task show id site start_handel = record {
  user_task_id = id;
  device_imei = none;
  send_flag = some "1";
  fun_code = some "B2";
  start_site_code = some site;
  end_site_code = none;
  start_storage_height = some 0;
  end_storage_height = none;
  start_handel = some (text_or "0" start_handel);
  end_handel = none;
  is_loop = some "0";
  task_type = some "4";
  lift_height = some 100;
  task_group_id = some "0";
  start_site_name = some (show site);
  end_site_name = none;
  message_id = none;
  pick_place_state = some "0";
  task_is_cancel = some "1";
  task_template_id = none;
  device_type = none;
  created_imei = none;
  way_points = none;
}

abbrev pub call_written : Db → Raises (JsonResult × Db)
call_written db = ok (success, db)

-- `callDeviceTask`; `show` is `str` of a number.
unfoldable pub call_device_task :
    (ℕ → String) → ℕ → Option ℕ → Option String → Db → Raises (JsonResult × Db)
unfolding call_task
call_device_task show new_id none start_handel db =
    ok (fail "1" (notice "device.initLocation.siteCodeBotNull"), db)
call_device_task show new_id (some site) start_handel db =
    elim (select_by_flags_type ("1" ∷ "2" ∷ []) "4" db) [
      | _ ∷ _ ↦ ok (fail "1" (notice "TaskService.callDeviceTask.callTaskIsExists"), db)
      | [] ↦
          let (id, db') = add_and_get_user_task_id new_id db in
          insert_task (call_task show id site start_handel) db' >>= call_written
    ]

-- The calls that wait or are under way, the newest first. Both lists are sorted once more.
unfoldable pub open_calls : Db → List UserTask
unfolding order_desc
open_calls db =
    order_desc (λ (t : UserTask). t.user_task_id)
      (select_by_flag_type "1" "4" true db ++ select_by_flag_type "2" "4" true db)

-- `select_all_ordered_desc`, where a blank flag asks for every row
unfoldable pub select_all_ordered_desc : Option String → Db → List UserTask
unfolding order_desc select
select_all_ordered_desc flag db =
    order_desc (λ (t : UserTask). t.user_task_id)
      (select (λ t. is_blank flag || elim flag [ none ↦ true | some f ↦ is_text t.send_flag f ])
        db.user_tasks)

-- `get_call_device_task`: the newest open call, and else the newest call at all.
unfoldable pub get_call_device_task : Db → Option UserTask
unfolding open_calls select_all_ordered_desc
get_call_device_task db = elim (open_calls db) [
  | t ∷ _ ↦ some t
  | [] ↦ first (select (λ t. is_text t.task_type "4") (select_all_ordered_desc none db))
]

pub record TaskCount : Type 0 where
  pub task_over : ℕ
  pub task_fail : ℕ
  pub task_cancel : ℕ

-- `sum(1 for r in rows if r.send_flag == flag)`
unfoldable pub count_flag : String → List UserTask → ℕ
count_flag flag [] = 0
count_flag flag (t ∷ ts) =
    let rest = count_flag flag ts in if is_text t.send_flag flag then 1 + rest else rest

unfoldable pub get_count_task_by_type : Option String → Db → List UserTask
unfolding select
get_count_task_by_type type db =
    select
      (λ t.
        in_values t.send_flag ("3" ∷ "4" ∷ "7" ∷ [])
        && (is_blank type || elim type [ none ↦ true | some v ↦ is_text t.task_type v ]))
      db.user_tasks

unfoldable pub get_count_task : Option String → Db → TaskCount
unfolding get_count_task_by_type count_flag
get_count_task type db =
    let rows = get_count_task_by_type type db in
    record {
      task_over = count_flag "3" rows;
      task_fail = count_flag "4" rows;
      task_cancel = count_flag "7" rows;
    }
