-- ===== src/Examples/Service.antt =====
-- Tasks at a small plant: one template from site 100 to site 200, and vehicle 5.
use ygvcs_py.Prelude.{ℕ, ◌+◌, ◌≡◌, ◌≤◌, ◌<◌, inl, refl, none, some, [], ◌∷◌, String, arith}
use ygvcs_py.Prelude.Raises.{Raises, ok, raised}
use ygvcs_py.Store.Query.Sorted.{In}
use ygvcs_py.Store.Query.{select_one}
use ygvcs_py.Store.Tables.{UserTask, Storage, TaskTempSite, Db}
use ygvcs_py.Store.Repos.{
  find_site_task, select_run_task_temp_by_site, find_storage, save_storage, select_by_device_flag,
}
use ygvcs_py.Tasks.Reply.{Outcome, done, refused, site_notice}
use ygvcs_py.Tasks.Sequences.{add_and_get_user_task_id}
use ygvcs_py.Tasks.Create.{
  TaskCreateForm, Plan, plan, written, choose, create_task, is_busy, choose_call, run_plan,
  insert_task, kind_of, mark_storages,
}
use ygvcs_py.Tasks.Create.Effects.{Verdict}
use ygvcs_py.Tasks.Create.Exclusion.{
  create_task-Verdict, create_task_twice, Marked, create_task-storages,
}
use ygvcs_py.Tasks.Pickup.{next_task}
use ygvcs_py.Tasks.Pickup.Priority.{
  IsAssigned, Waits, Eligible, next_task-IsAssigned, next_task-Eligible,
}
use ygvcs_py.Sites.Area.{AreaStatusEditForm}
use ygvcs_py.Ids.{SnowFlakeIds, next_id, assemble, twepoch}
use ygvcs_py.Ids.Order.{IsRunning, next_id_grows}

abbrev place : String → ℕ → String → Storage
place id code status = record {
  storage_id = id;
  storage_name = some id;
  storage_hight = some 0;
  site_name = some id;
  site_code = some code;
  site_status = some status;
  site_type = some "1";
  is_enable = some "0";
}

abbrev temp_site : ℕ → String → ℕ → TaskTempSite
temp_site id type code = record {
  task_temp_site_id = id;
  site_type = some type;
  site_code = some code;
  site_name = none;
  task_template_id = some 7;
  order_index = some id;
}

abbrev plant : Db
plant = record {
  user_tasks = [];
  storages = place "A" 100 "1" ∷ place "B" 200 "0" ∷ [];
  devices = [];
  relations = [];
  temp_devices =
      record { task_temp_device_id = 1; device_imei = some 5; task_template_id = some 7 } ∷ [];
  temp_sites = temp_site 1 "1" 100 ∷ temp_site 2 "2" 200 ∷ [];
  templates = record { task_template_id = 7; template_name = some "T"; run_status = some "0" } ∷ [];
  sequences = [];
  spare_sites = [];
  site_manages = [];
}

abbrev call : TaskCreateForm
call = record { device_imei = written "5"; code = 200; code_act = some "1"; device_type = none }

abbrev show : ℕ → String
show n = "n"

abbrev database : Raises (Outcome × Db) → Db
database raised = plant
database (ok r) = r.1

abbrev plant_after : Db
plant_after = database ((create_task show 1 2 call [] plant).result)

start_marked : In (place "A" 100 "2") plant_after.storages
unfolding create_task is_busy find_site_task choose choose_call select_run_task_temp_by_site
    find_storage select_one run_plan insert_task kind_of add_and_get_user_task_id mark_storages
    save_storage
start_marked = inl refl

created : (create_task show 1 2 call [] plant).result ≡ ok (done, plant_after)
unfolding create_task is_busy find_site_task choose choose_call select_run_task_temp_by_site
    find_storage select_one run_plan insert_task kind_of add_and_get_user_task_id
created = refl

-- A run on a call at site 200.
create_task-Verdict_example : Verdict call plant done plant_after
create_task-Verdict_example = create_task-Verdict show 1 2 call [] done plant plant_after created

create_task_twice_example :
    (create_task show 3 4 call [] plant_after).result
    ≡ ok (refused (site_notice 200 "TaskService.createTask.taskIsExecuted"), plant_after)
unfolding is_busy
create_task_twice_example =
    create_task_twice show 1 2 3 4 call call [] [] plant plant_after created refl refl

create_task-storages_example :
    (p : Plan) × (choose call plant ≡ plan p) × Marked p plant.storages (place "A" 100 "2")
create_task-storages_example =
    create_task-storages show 1 2 call [] plant plant_after (place "A" 100 "2") created start_marked

-- A task that waits for vehicle 5.
abbrev waiting_task : UserTask
waiting_task = record {
  user_task_id = 1;
  device_imei = some 5;
  send_flag = some "1";
  fun_code = some "B2";
  start_site_code = some 100;
  end_site_code = some 200;
  start_storage_height = some 0;
  end_storage_height = some 0;
  start_handel = some "1";
  end_handel = some "2";
  is_loop = some "0";
  task_type = some "1";
  lift_height = some 100;
  task_group_id = none;
  start_site_name = none;
  end_site_name = none;
  message_id = none;
  pick_place_state = some "0";
  task_is_cancel = some "0";
  task_template_id = some 7;
  device_type = none;
  created_imei = some "5";
  way_points = none;
}

abbrev queued : Db
queued = record plant { user_tasks = waiting_task ∷ [] }

next_task-IsAssigned_example :
    (t : UserTask) × (next_task 5 queued ≡ some t)
    × In t queued.user_tasks
    × IsAssigned 5 t
    × (t.user_task_id ≤ 1)
next_task-IsAssigned_example = next_task-IsAssigned 5 queued waiting_task (inl refl) refl

next_task-Eligible_example :
    In waiting_task queued.user_tasks × Waits waiting_task × Eligible 5 queued waiting_task
unfolding next_task select_by_device_flag
next_task-Eligible_example = next_task-Eligible 5 queued waiting_task refl

abbrev emptying : AreaStatusEditForm
emptying = record { task_template_id = 7; site_status = "0"; type = "2" }

abbrev numbers : ℕ → ℕ × ℕ
numbers n = (10 + n, 20 + n)

-- A generator whose last sequence number of a millisecond is used up.
abbrev generator : SnowFlakeIds
generator = record {
  worker_id = 1;
  datacenter_id = 2;
  sequence = 4095;
  last_timestamp = some (twepoch + 10);
}

generator-IsRunning : IsRunning generator (twepoch + 10)
generator-IsRunning = record {
  worker_fits = omega arith;
  datacenter_fits = omega arith;
  sequence_fits = omega arith;
  last_is = refl;
  after_twepoch = omega arith;
}

next_id_grows_example :
    (assemble (twepoch + 10) 2 1 4095 < (next_id (twepoch + 10) (twepoch + 11) generator).0)
    × ((next : ℕ) × IsRunning (next_id (twepoch + 10) (twepoch + 11) generator).1 next
        × ((next_id (twepoch + 10) (twepoch + 11) generator).0
            ≡ assemble next 2 1 (next_id (twepoch + 10) (twepoch + 11) generator).1.sequence))
next_id_grows_example =
    next_id_grows (twepoch + 10) (twepoch + 11) (twepoch + 10) generator generator-IsRunning
      (omega arith) (omega arith)
