-- ===== src/UserTasks/Orders.antt =====
-- app/services/user_task.py: what add_task, send_points_task and send_repeat_task check, and the
-- task and the frames that they make. The JSON library writes and reads the list of way points
-- (`dump`, `to_list`); a form's way points are given as the code dumps them.
use ygvcs_py.Prelude.{
  ℕ, Bool, true, false, not, Option, none, some, List, [], ◌∷◌, String, ◌==◌, if◌then◌else◌, Text,
  codes, text_eq, first,
}
use ygvcs_py.Prelude.Raises.{Raises, ok, raised}
use ygvcs_py.Store.Query.{is_text, is_number, select, select_one}
use ygvcs_py.Store.Tables.{UserTask, SiteManage, Db}
use ygvcs_py.Store.Repos.{save_task}
use ygvcs_py.Tasks.Reply.{
  JsonResult, success, success_of, fail, notice, site_notice, text_notice, flag_notice,
}
use ygvcs_py.Tasks.Sequences.{add_and_get_user_task_id}
use ygvcs_py.Tasks.Create.{insert_task}
use ygvcs_py.Vehicle.Memory.{MemoryTable}
use ygvcs_py.Vehicle.Frames.{WayPoint, or_zero, append_task, task_lock}
use ygvcs_py.Vehicle.Frames.Dispatch.{way_points_of}
use ygvcs_py.UserTasks.Attempt.{Attempt, goes_on, raises, ◌>>=◌, lift, refuse_if, or_refuse}
use ygvcs_py.UserTasks.Guards.{
  task_flags, points_flags, idle_vehicle, known_position, keyboard_locked, Failure, not_sent,
  not_done,
}

-- `x if x else d` of a text
abbrev pub text_or : String → Option String → String
text_or d none = d
text_or d (some String.[]) = d
text_or d (some (String.◌∷◌ c s)) = String.◌∷◌ c s

-- `x if x is not None else d` of a number
abbrev pub number_or : ℕ → Option ℕ → ℕ
number_or d none = d
number_or d (some n) = n

-- `not x` of a text
abbrev pub is_blank : Option String → Bool
is_blank none = true
is_blank (some String.[]) = true
is_blank (some (String.◌∷◌ c s)) = false

abbrev pub is_empty : {A : Type 0} → List A → Bool
is_empty [] = true
is_empty (x ∷ xs) = false

pub record WebTaskAddForm : Type 0 where
  pub message_id : Option String
  pub device_imei : ℕ
  pub start_site_code : Option ℕ
  pub end_site_code : Option ℕ
  pub start_handel : Option String
  pub end_handel : Option String
  pub start_storage_height : Option ℕ
  pub end_storage_height : Option ℕ
  pub up_down_height : Option ℕ
  pub task_is_cancel : Option String
  pub task_way_points : List WayPoint

-- What is sent once the checks passed: the frames, how a failure is told, the tables and the answer
-- when every frame was carried out.
pub record Order : Type 0 where
  pub frames : List Text
  pub on_failure : Failure → JsonResult
  pub store : Raises Db
  pub answer : JsonResult

-- `f"...【{result.msg}】"` and `f"...【{parsed.msg}】"`
abbrev pub task_is_fail : Failure → JsonResult
task_is_fail (not_sent msg) = fail "1" (text_notice "TaskService.sendTask.TaskIsFail" msg)
task_is_fail (not_done fun_code msg) = fail "1" (text_notice "TaskService.sendTask.TaskIsFail" msg)

abbrev pub site_manage : ℕ → Db → Option SiteManage
site_manage code db = select_one (λ s. is_number s.site_manage_id code) db.site_manages

abbrev pub no_code : ℕ → JsonResult
no_code code = fail "1" (site_notice code "TaskService.sendTask.CodeNotExit")

-- The name of the end's station, where there is an end.
unfoldable pub end_name : Option ℕ → Db → Attempt (Option String)
unfolding ◌>>=◌ or_refuse
end_name none db = goes_on none
end_name (some code) db = do
  s ← or_refuse (site_manage code db) (no_code code)
  goes_on s.site_manage_name

abbrev pub has_message : Option String → UserTask → Bool
has_message none t = true
has_message (some m) t = is_text t.message_id m

unfoldable pub added_task :
    (List WayPoint → String) → ℕ → WebTaskAddForm → ℕ → Option String → Option String → UserTask
added_task dump id form start start_name end_name = record {
  user_task_id = id;
  device_imei = some form.device_imei;
  send_flag = none;
  fun_code = some "B2";
  start_site_code = some start;
  end_site_code = form.end_site_code;
  start_storage_height = some (or_zero form.start_storage_height);
  end_storage_height = some (or_zero form.end_storage_height);
  start_handel = some (text_or "0" form.start_handel);
  end_handel = some (text_or "0" form.end_handel);
  is_loop = some "0";
  task_type = some "0";
  lift_height = some (number_or 100 form.up_down_height);
  task_group_id = some "0";
  start_site_name = start_name;
  end_site_name = end_name;
  message_id = form.message_id;
  pick_place_state = some "0";
  task_is_cancel = some (text_or "1" form.task_is_cancel);
  task_template_id = none;
  device_type = none;
  created_imei = none;
  way_points = if is_empty form.task_way_points then none else some (dump form.task_way_points);
}

-- The checks on the form, up to the task that is to be sent.
unfoldable pub checked_form :
    (List WayPoint → String) → ℕ → WebTaskAddForm → Db → Attempt (UserTask × Db)
unfolding added_task end_name ◌>>=◌ refuse_if or_refuse
checked_form dump new_id form db = do
  _ ←
      refuse_if (is_blank form.message_id)
        (fail "1" (notice "TaskService.sendTask.MessageIdNotNull"))
  start ← or_refuse form.start_site_code (fail "1" (notice "TaskService.sendTask.StartCodeNotNull"))
  _ ←
      refuse_if (is_number form.end_site_code start)
        (fail "1" (notice "TaskService.sendTask.StartEquallyEnd"))
  _ ←
      refuse_if (not (is_empty (select (has_message form.message_id) db.user_tasks)))
        (fail "5" (notice "TaskService.sendTask.taskIsExists"))
  start_site ← or_refuse (site_manage start db) (no_code start)
  name ← end_name form.end_site_code db
  let (id, db') = add_and_get_user_task_id new_id db
  goes_on (added_task dump id form start start_site.site_manage_name name, db')

unfoldable pub add_order :
    (List WayPoint → String) → ℕ → ℕ → WebTaskAddForm → Option MemoryTable → Db → Attempt Order
unfolding checked_form idle_vehicle known_position keyboard_locked ◌>>=◌ refuse_if lift
add_order dump new_id random form table db = do
  t ← idle_vehicle task_flags table
  _ ← known_position t
  _ ← keyboard_locked t
  made ← checked_form dump new_id form db
  frames ← lift (append_task random made.0 form.device_imei form.task_way_points)
  _ ← refuse_if (is_empty frames) (fail "1" (notice "TaskService.sendTask.DeviceIsBusy"))
  goes_on (record {
    frames = frames;
    on_failure = task_is_fail;
    store = insert_task (record (made.0) { send_flag = some "2" }) made.1;
    answer = success_of form.message_id;
  })

pub record TaskPointsForm : Type 0 where
  pub device_imei : ℕ
  pub start_site_code : Option ℕ
  pub start_site_name : Option String
  pub end_site_code : Option ℕ
  pub end_site_name : Option String
  pub start_storage_height : Option ℕ
  pub end_storage_height : Option ℕ
  pub start_handel : Option String
  pub end_handel : Option String

-- The task with the parts that are filled in when it was sent; no send flag is set.
unfoldable pub points_task : ℕ → TaskPointsForm → UserTask
points_task id form = record {
  user_task_id = id;
  device_imei = some form.device_imei;
  send_flag = none;
  fun_code = some "B2";
  start_site_code = form.start_site_code;
  end_site_code = form.end_site_code;
  start_storage_height = some (or_zero form.start_storage_height);
  end_storage_height = some (or_zero form.end_storage_height);
  start_handel = some (text_or "0" form.start_handel);
  end_handel = some (text_or "0" form.end_handel);
  is_loop = some "0";
  task_type = some "1";
  lift_height = some 100;
  task_group_id = some "0";
  start_site_name = form.start_site_name;
  end_site_name = form.end_site_name;
  message_id = none;
  pick_place_state = some "0";
  task_is_cancel = some "1";
  task_template_id = none;
  device_type = some "0";
  created_imei = none;
  way_points = none;
}

abbrev pub points_fail : Failure → JsonResult
points_fail (not_sent msg) = fail "1" (notice "TaskService.sendTask.TaskIsFail")
points_fail (not_done fun_code msg) =
    if text_eq fun_code (codes "B2")
    then fail "1" (flag_notice "sendTask.UserTaskServiceImpl.flag_B2_" msg)
    else fail "1" (text_notice "TaskService.sendTask.TaskIsFail" msg)

-- The keyboard is locked first where it is not.
unfoldable pub points_frames : ℕ → ℕ → UserTask → ℕ → MemoryTable → Raises (List Text)
points_frames random random' ut imei t = elim (append_task random ut imei []) [
  | raised ↦ raised
  | ok frames ↦
      if t.lock_state == 0
      then elim (task_lock random' imei 1) [ raised ↦ raised | ok lock ↦ ok (lock ∷ frames) ]
      else ok frames
]

unfoldable pub points_order : ℕ → ℕ → ℕ → TaskPointsForm → Option MemoryTable → Db → Attempt Order
unfolding points_task points_frames idle_vehicle known_position ◌>>=◌ lift
points_order new_id random random' form table db = do
  t ← idle_vehicle points_flags table
  _ ← known_position t
  let (id, db') = add_and_get_user_task_id new_id db
  let ut = points_task id form
  frames ← lift (points_frames random random' ut form.device_imei t)
  goes_on (record {
    frames = frames;
    on_failure = points_fail;
    store = insert_task ut db';
    answer = success;
  })

abbrev pub no_user_task : JsonResult
no_user_task = fail "1" (notice "TaskService.getTaskResult.TaskNotExit")

abbrev pub vehicle_of : UserTask → Attempt ℕ
vehicle_of t = elim t.device_imei [ none ↦ raises | some imei ↦ goes_on imei ]

-- `tables` is what Redis has under the key of a task's vehicle.
unfoldable pub repeat_order :
    (String → Raises (List WayPoint))
    → ℕ
    → Option String
    → (Option ℕ → Option MemoryTable)
    → Db
    → Attempt Order
unfolding idle_vehicle known_position keyboard_locked ◌>>=◌ refuse_if or_refuse lift
repeat_order to_list random message_id tables db = do
  t ← or_refuse (first (select (has_message message_id) db.user_tasks)) no_user_task
  table ← idle_vehicle task_flags (tables t.device_imei)
  _ ← known_position table
  _ ← keyboard_locked table
  way_points ← lift (way_points_of to_list t.way_points)
  imei ← vehicle_of t
  frames ← lift (append_task random t imei way_points)
  _ ← refuse_if (is_empty frames) (fail "1" (notice "TaskService.sendTask.DeviceIsBusy"))
  goes_on (record {
    frames = frames;
    on_failure = task_is_fail;
    store = ok (save_task (record t { send_flag = some "2" }) db);
    answer = success;
  })
