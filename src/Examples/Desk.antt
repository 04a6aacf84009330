-- ===== src/Examples/Desk.antt =====
-- Templates and user tasks of a small plant.
use ygvcs_py.Prelude.{
  ℕ, ◌≡◌, ◌⊎◌, inl, inr, refl, Option, none, some, [], ◌∷◌, String, arith, codes,
}
use ygvcs_py.Prelude.Raises.{Raises, ok, raised}
use ygvcs_py.Store.Query.{select_one, select}
use ygvcs_py.Store.Query.Sorted.{In}
use ygvcs_py.Store.Tables.{UserTask, TaskTempSite, TaskTemplate, SiteManage, Db}
use ygvcs_py.Store.Repos.{select_by_flags_type}
use ygvcs_py.Tasks.Reply.{JsonResult, success}
use ygvcs_py.Tasks.Sequences.{next_val, add_and_get_user_task_id}
use ygvcs_py.Tasks.Create.{has_task, insert_task}
use ygvcs_py.Tasks.Templates.{
  SiteForm, TaskAddForm, TaskInfo, add_task_temp, edit_task_temp, edit_task_temp_info,
  select_task_temp_info,
}
use ygvcs_py.Tasks.Templates.Listed.{
  Shows, select_task_temp_info-add_task_temp, select_task_temp_info-edit_task_temp_info,
}
use ygvcs_py.Tasks.Templates.Running.{RunExclusive, edit_task_temp-RunExclusive}
use ygvcs_py.Vehicle.Memory.{MemoryTable}
use ygvcs_py.UserTasks.Orders.{WebTaskAddForm}
use ygvcs_py.UserTasks.Sending.{Sender, add_task}
use ygvcs_py.UserTasks.Sending.Added.{Added, add_task-Added}
use ygvcs_py.UserTasks.Queue.{cancel_task, call_task, call_device_task}
use ygvcs_py.UserTasks.Queue.Calls.{
  CallEnds, OneCall, open_flags, call_device_task-OneCall, call_device_task-accepted,
}
use ygvcs_py.UserTasks.Control.{set_task}
use ygvcs_py.UserTasks.Control.Ended.{EndedTask, NotEnded}
use ygvcs_py.UserTasks.Control.Taken.{set_task-TakenBack}
use ygvcs_py.UserTasks.Steps.{stays, then_calls, cancels, sets}
use ygvcs_py.UserTasks.Steps.Unique.{Unique, Reaches-Unique}
use ygvcs_py.Examples.Fleet.{task, depot, acknowledging, table}

abbrev site : ℕ → SiteForm
site code = record { site_code = code; storage_name = some "place"; standby_list = [] }

abbrev form : TaskAddForm
form = record {
  task_name = some "T";
  start_sites = site 100 ∷ site 101 ∷ [];
  end_sites = site 200 ∷ [];
  devices = some 5 ∷ [];
  task_template_id = some 7;
}

abbrev running : TaskTemplate
running = record { task_template_id = 7; template_name = some "T"; run_status = some "0" }

abbrev row : TaskTempSite
row = record {
  task_temp_site_id = 1;
  site_type = some "1";
  site_code = some 100;
  site_name = none;
  task_template_id = some 7;
  order_index = some 1;
}

abbrev plant : Db
plant = record depot { templates = running ∷ []; temp_sites = row ∷ [] }

select_task_temp_info-add_task_temp_example :
    (info : TaskInfo) × (select_task_temp_info 7 (add_task_temp (λ n. n) form plant).1 ≡ some info)
    × Shows 7 "0" form info
unfolding select_one select
select_task_temp_info-add_task_temp_example =
    select_task_temp_info-add_task_temp (λ n. n) 7 form plant refl

select_task_temp_info-edit_task_temp_info_example :
    (info : TaskInfo) × (select_task_temp_info 7 (edit_task_temp_info (λ n. n) 7 form plant).1
      ≡ some info)
    × Shows 7 "1" (record form { task_template_id = some 7 }) info
select_task_temp_info-edit_task_temp_info_example =
    select_task_temp_info-edit_task_temp_info (λ n. n) 7 form plant

-- With one template, every two are the same.
plant-RunExclusive : RunExclusive plant
plant-RunExclusive = record {
  alone = λ type t u s r kind a b typed typed' same. go t u a.template b.template;
}
  where
    go :
        (t u : TaskTemplate)
        → In t plant.templates
        → In u plant.templates
        → t.task_template_id ≡ u.task_template_id
    go t u (inl e) (inl f) = rw (e, f) refl
    go t u (inr m) k = absurd m
    go t u (inl e) (inr m) = absurd m

edit_task_temp-RunExclusive_example :
    RunExclusive (edit_task_temp (record { task_template_id = 7; run_status = some "0" }) plant).1
edit_task_temp-RunExclusive_example =
    edit_task_temp-RunExclusive (record { task_template_id = 7; run_status = some "0" }) plant
      plant-RunExclusive

abbrev station : ℕ → SiteManage
station code = record {
  manage_id = "s";
  site_manage_id = some code;
  site_manage_name = some "station";
  site_attr = none;
  customer_id = none;
}

abbrev order : WebTaskAddForm
order = record {
  message_id = some "m";
  device_imei = 5;
  start_site_code = some 100;
  end_site_code = some 200;
  start_handel = some "1";
  end_handel = some "2";
  start_storage_height = none;
  end_storage_height = none;
  up_down_height = none;
  task_is_cancel = none;
  task_way_points = [];
}

-- A vehicle that stands at its place with a locked keyboard.
abbrev ready : MemoryTable
ready = record table {
  flag = some (codes "82");
  task_flag = 0;
  start_site_code = 1;
  end_site_code = 2;
  lock_state = 1;
}

abbrev desk : Sender ℕ
desk = record { db = record depot { site_manages = station 100 ∷ station 200 ∷ [] }; world = 0 }

add_task-Added_example :
    ((add_task acknowledging (λ w. "") 1 3 order (some ready) desk).1.db ≡ desk.db)
    ⊎ Added acknowledging 3 order desk
        (add_task acknowledging (λ w. "") 1 3 order (some ready) desk).1
        (add_task acknowledging (λ w. "") 1 3 order (some ready) desk).0
add_task-Added_example = add_task-Added acknowledging (λ w. "") 1 3 order (some ready) desk

abbrev show : ℕ → String
show n = "n"

call_device_task-accepted_example :
    (db' : Db) × (call_device_task show 1 (some 100) none depot ≡ ok (success, db'))
    × (t : UserTask) × (select_by_flags_type open_flags "4" db' ≡ t ∷ [])
    × (t.send_flag ≡ some "1")
    × (t.device_imei ≡ none)
    × (t.start_site_code ≡ some 100)
    × (t.user_task_id ≡ 1)
unfolding select_by_flags_type select has_task add_and_get_user_task_id next_val
call_device_task-accepted_example = call_device_task-accepted show 1 100 none depot refl refl

abbrev written : Raises (JsonResult × Db) → Db
written raised = depot
written (ok r) = r.1

abbrev depot_called : Db
depot_called = written (call_device_task show 1 (some 100) none depot)

called : call_device_task show 1 (some 100) none depot ≡ ok (success, depot_called)
unfolding call_device_task call_task select_by_flags_type select insert_task has_task
    add_and_get_user_task_id next_val
called = refl

depot-OneCall : OneCall depot
unfolding select_by_flags_type select
depot-OneCall = omega arith

call_device_task-OneCall_example :
    CallEnds (some 100) depot success depot_called × OneCall depot_called
call_device_task-OneCall_example =
    call_device_task-OneCall show 1 (some 100) none success depot depot_called called depot-OneCall

abbrev named : Db
named = record depot { user_tasks = record task { message_id = some "m" } ∷ [] }

abbrev at_desk : Sender ℕ
at_desk = record { db = named; world = 0 }

abbrev no_tables : Option ℕ → Option MemoryTable
no_tables imei = none

set_task-TakenBack_example :
    (((set_task acknowledging 3 (some "m") (some "3") no_tables at_desk).1.db ≡ named)
      × NotEnded (some "m") (some "3") no_tables named)
    ⊎ EndedTask
        (some "m")
        (some "3")
        no_tables
        named
        (set_task acknowledging 3 (some "m") (some "3") no_tables at_desk)
set_task-TakenBack_example =
    set_task-TakenBack acknowledging 3 (some "m") (some "3") no_tables at_desk

named-Unique : Unique named
named-Unique = record { rows = (λ u m. absurd m, tt) }

abbrev after_set : Sender ℕ
after_set = (set_task acknowledging 3 (some "m") (some "3") no_tables at_desk).1

Reaches-Unique_example : Unique (cancel_task (some 5) after_set.db).1
Reaches-Unique_example =
    Reaches-Unique acknowledging at_desk
      (record after_set { db = (cancel_task (some 5) after_set.db).1 })
      (then_calls (then_calls stays (sets 3 (some "m") (some "3") no_tables)) (cancels (some 5)))
      named-Unique
