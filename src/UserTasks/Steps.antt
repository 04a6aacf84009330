-- ===== src/UserTasks/Steps.antt =====
-- The user task service as a machine: one call is one step, whatever its arguments, what the
-- vehicles answer, and what Redis says of them.
pub mod Unique
use ygvcs_py.Prelude.{
  ℕ, ◌≡◌, refl, sym, ap, ◌∙◌, ◌⊎◌, inl, inr, Bool, true, false, Option, none, some, List, [], ◌∷◌,
  ◌++◌, String, Text, arith, first, Bool-cases,
}
use mathlib.Core.Path.{subst}
use ygvcs_py.Prelude.Raises.{Raises, ok, raised}
use ygvcs_py.Tcp.Futures.{JsonMsg}
use ygvcs_py.Store.Query.{is_text, select}
use ygvcs_py.Store.Query.Sorted.{In, In-select, select-In}
use ygvcs_py.Store.Tables.{UserTask, Db}
use ygvcs_py.Store.Repos.{save_task}
use ygvcs_py.Tasks.Reply.{JsonResult}
use ygvcs_py.Vehicle.Memory.{MemoryTable}
use ygvcs_py.Vehicle.Frames.{WayPoint}
use ygvcs_py.UserTasks.Apart.{
  AllApart, AllApart-delete, Keeps, AllApart-update, same_row, update-row, snoc-AllApart,
  no_message, other_message,
}
use ygvcs_py.UserTasks.Orders.{WebTaskAddForm, TaskPointsForm}
use ygvcs_py.UserTasks.Queue.{
  cancelled, waits_for, cancel_task, clear_task, del_user_task, call_device_task,
}
use ygvcs_py.UserTasks.Sending.{Sender, add_task, send_points_task, send_repeat_task}
use ygvcs_py.UserTasks.Sending.Added.{Added, add_task-Added}
use ygvcs_py.UserTasks.Control.{set_task, cancel_call_device_task}

-- One call of the service, between the tables before and after it.
pub data Step {W : Type 0} (send : Text → W → JsonMsg × W) : Sender W → Sender W → Type 0 where
  adds :
      {s : Sender W} (dump : List WayPoint → String) (new_id random : ℕ) (form : WebTaskAddForm)
      (table : Option MemoryTable)
      → Step send s (add_task send dump new_id random form table s).1
  sends_points :
      {s : Sender W} (new_id random random' : ℕ) (form : TaskPointsForm)
      (table : Option MemoryTable)
      → Step send s (send_points_task send new_id random random' form table s).1
  repeats :
      {s : Sender W} (to_list : String → Raises (List WayPoint)) (random : ℕ)
      (message_id : Option String) (tables : Option ℕ → Option MemoryTable)
      → Step send s (send_repeat_task send to_list random message_id tables s).1
  calls :
      {s : Sender W} (show : ℕ → String) (new_id : ℕ) (site : Option ℕ)
      (start_handel : Option String) (j : JsonResult) (db : Db)
      → call_device_task show new_id site start_handel s.db ≡ ok (j, db)
      → Step send s (record s { db = db })
  cancels :
      {s : Sender W} (imei : Option ℕ) → Step send s (record s { db = (cancel_task imei s.db).1 })
  clears : {s : Sender W} → Step send s (record s { db = (clear_task s.db).1 })
  deletes : {s : Sender W} (id : ℕ) → Step send s (record s { db = (del_user_task id s.db).1 })
  sets :
      {s : Sender W} (random : ℕ) (message_id state : Option String)
      (tables : Option ℕ → Option MemoryTable)
      → Step send s (set_task send random message_id state tables s).1
  cancels_call :
      {s : Sender W} (random : ℕ) (tables : Option ℕ → Option MemoryTable)
      → Step send s (cancel_call_device_task send random tables s).1

-- The states that calls lead to.
pub data Reaches {W : Type 0} (send : Text → W → JsonMsg × W) : Sender W → Sender W → Type 0 where
  stays : {s : Sender W} → Reaches send s s
  then_calls : {s t u : Sender W} → Reaches send s t → Step send t u → Reaches send s u
