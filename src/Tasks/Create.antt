-- ===== src/Tasks/Create.antt =====
-- app/services/task_op_service.py, create_task: from a call at a site to a waiting user task.
-- A run is one transaction: where the code raises, the session ends without a commit and the
-- database keeps its state. Other runs do not come between its statements here.
pub mod Effects
pub mod Exclusion
use ygvcs_py.Prelude.{
  ℕ, ◌+◌, Bool, true, false, ◌&&◌, ◌||◌, Option, none, some, List, [], ◌∷◌, ◌++◌, String, ◌==◌,
  if◌then◌else◌, str_eq, length,
}
use ygvcs_py.Prelude.Raises.{Raises, ok, raised, ◌>>=◌}
use ygvcs_py.Store.Query.{is_text, is_number, select, select_one}
use ygvcs_py.Store.Tables.{UserTask, Storage, TaskTempDevice, TaskTemplate, Db}
use ygvcs_py.Store.Repos.{find_site_task, select_run_task_temp_by_site, find_storage, save_storage}
use ygvcs_py.Tasks.Reply.{Notice, silent, notice, site_notice, Outcome, done, refused}
use ygvcs_py.Tasks.Sequences.{add_and_get_user_task_id}

-- A member of `_device_busy`: the callers hand over a `str`, an `int` or `None`, and Python keeps
-- the three apart.
pub data Imei : Type 0 where
  nobody : Imei
  written : String → Imei
  number : ℕ → Imei

abbrev pub same_imei : Imei → Imei → Bool
same_imei nobody nobody = true
same_imei (written s) (written t) = str_eq s t
same_imei (number m) (number n) = m == n
same_imei _ _ = false

unfoldable pub is_busy : Imei → List Imei → Bool
is_busy i [] = false
is_busy i (j ∷ busy) = same_imei j i || is_busy i busy

unfoldable pub discard : Imei → List Imei → List Imei
discard i [] = []
discard i (j ∷ busy) = let rest = discard i busy in if same_imei j i then rest else j ∷ rest

pub record TaskCreateForm : Type 0 where
  pub device_imei : Imei
  pub code : ℕ
  pub code_act : Option String
  pub device_type : Option String

-- What the first part of the code settles: the template, and where from and where to.
pub record Plan : Type 0 where
  pub template : ℕ
  pub start_storage : Storage
  pub end_storage : Storage

pub data Choice : Type 0 where
  refuse : Notice → Choice
  plan : Plan → Choice

-- `code_act == "1"`: from a full start place of the template to the calling site.
unfoldable pub choose_call : ℕ → Db → Choice
choose_call code db = elim (select_run_task_temp_by_site (some code) "2" none db) [
  | [] ↦ refuse (site_notice code "TaskService.createTask.siteNotTaskTemplate")
  | t ∷ _ ↦ elim (find_storage t.task_template_id "1" "1" db) [
    | none ↦ refuse (notice "TaskService.createTask.notStartSite")
    | some start ↦ elim (select_one (λ s. is_number s.site_code code) db.storages) [
      | none ↦ refuse (notice "site.editStorage.noStorage")
      | some end ↦
          plan (record { template = t.task_template_id; start_storage = start; end_storage = end })
    ]
  ]
]

-- `code_act == "2"`: from the calling site to an empty end place of the template.
unfoldable pub choose_fill : ℕ → Db → Choice
choose_fill code db = elim (select_run_task_temp_by_site (some code) "1" none db) [
  | [] ↦ refuse (site_notice code "TaskService.createTask.siteNotTaskTemplate")
  | t ∷ _ ↦ elim (find_storage t.task_template_id "2" "0" db) [
    | none ↦ refuse (notice "TaskService.createTask.notEndSite")
    | some end ↦ elim (select_one (λ s. is_number s.site_code code) db.storages) [
      | none ↦ refuse (notice "site.editStorage.noStorage")
      | some start ↦
          plan (record { template = t.task_template_id; start_storage = start; end_storage = end })
    ]
  ]
]

unfoldable pub choose : TaskCreateForm → Db → Choice
choose form db =
    if is_text form.code_act "1"
    then choose_call form.code db
    else if is_text form.code_act "2"
    then choose_fill form.code db
    else refuse silent

-- The registered vehicles decide the kind of the task: its number, its vehicle, its type. A task
-- without a registered vehicle gets its number from the database when it is inserted.
pub record Kind : Type 0 where
  pub user_task_id : Option ℕ
  pub device_imei : Option ℕ
  pub task_type : String

unfoldable pub kind_of : ℕ → ℕ → Db → Kind × Db
kind_of new_id template db =
    elim (select (λ (d : TaskTempDevice). is_number d.task_template_id template) db.temp_devices) [
      | [] ↦ (record { user_task_id = none; device_imei = none; task_type = "2" }, db)
      | reg ∷ regs ↦
          let (v, db') = add_and_get_user_task_id new_id db in
          elim regs [
            | [] ↦ (
              record { user_task_id = some v; device_imei = reg.device_imei; task_type = "1" },
              db',
            )
            | _ ∷ _ ↦ (record { user_task_id = some v; device_imei = none; task_type = "3" }, db')
          ]
    ]

-- The number of an inserted row: its own, or the one that the database gives it.
abbrev pub or_auto : Option ℕ → ℕ → ℕ
or_auto none auto = auto
or_auto (some v) auto = v

-- `str(form.deviceImei)`; `show` is `str` of a number.
abbrev pub shown_imei : (ℕ → String) → Imei → String
shown_imei show nobody = "None"
shown_imei show (written s) = s
shown_imei show (number n) = show n

unfoldable pub new_task : (ℕ → String) → TaskCreateForm → Plan → Kind → ℕ → UserTask
new_task show form p kind auto = record {
  user_task_id = or_auto kind.user_task_id auto;
  device_imei = kind.device_imei;
  send_flag = some "1";
  fun_code = some "B2";
  start_site_code = p.start_storage.site_code;
  end_site_code = p.end_storage.site_code;
  start_storage_height = p.start_storage.storage_hight;
  end_storage_height = p.end_storage.storage_hight;
  start_handel = some "1";
  end_handel = some "2";
  is_loop = some "0";
  task_type = some kind.task_type;
  lift_height = some 100;
  task_group_id = none;
  start_site_name = p.start_storage.storage_name;
  end_site_name = p.end_storage.storage_name;
  message_id = none;
  pick_place_state = some "0";
  task_is_cancel = some "0";
  task_template_id = some p.template;
  device_type = form.device_type;
  created_imei = some (shown_imei show form.device_imei);
  way_points = none;
}

-- The primary key: an insert of a number that is there already raises.
unfoldable pub has_task : ℕ → List UserTask → Bool
has_task i [] = false
has_task i (t ∷ ts) = t.user_task_id == i || has_task i ts

unfoldable pub insert_task : UserTask → Db → Raises Db
unfolding has_task
insert_task t db =
    if has_task t.user_task_id db.user_tasks
    then raised
    else ok (record db { user_tasks = db.user_tasks ++ t ∷ [] })

-- The start is being emptied (2), the end is being filled (3). `start_storage` and `end_storage`
-- are one object of the session where both are the same row, which then ends with "3".
unfoldable pub mark_storages : Plan → Db → Db
mark_storages p db =
    save_storage (record (p.end_storage) { site_status = some "3" })
      (save_storage (record (p.start_storage) { site_status = some "2" }) db)

-- Steps 2 to 4. `new_id` and `auto` are the ids that the id generator and the database give out.
unfoldable pub run_plan : (ℕ → String) → ℕ → ℕ → TaskCreateForm → Plan → Db → Raises (Outcome × Db)
run_plan show new_id auto form p db =
    let (kind, db') = kind_of new_id p.template db in
    insert_task (new_task show form p kind auto) db' >>= λ db''. ok (done, mark_storages p db'')

-- The body of the `try`.
unfoldable pub create_body : (ℕ → String) → ℕ → ℕ → TaskCreateForm → Db → Raises (Outcome × Db)
create_body show new_id auto form db = elim (find_site_task form.code db) [
  | _ ∷ _ ↦ ok (refused (site_notice form.code "TaskService.createTask.taskIsExecuted"), db)
  | [] ↦ elim (choose form db) [
    | refuse n ↦ ok (refused n, db)
    | plan p ↦ run_plan show new_id auto form p db
  ]
]

pub record Created : Type 0 where
  pub result : Raises (Outcome × Db)
  pub busy : List Imei

unfoldable pub create_task : (ℕ → String) → ℕ → ℕ → TaskCreateForm → List Imei → Db → Created
unfolding create_body discard
create_task show new_id auto form busy db =
    if is_busy form.device_imei busy
    then record { result = ok (refused silent, db); busy = busy }
    else record {
      result = create_body show new_id auto form db;
      busy = discard form.device_imei (form.device_imei ∷ busy);
    }
