-- ===== src/UserTasks/Control/Ended.antt =====
-- What it is for set_task to end a task, and why it may not.
use ygvcs_py.Prelude.{
  ℕ, ◌≡◌, ◌≢◌, refl, ap, ◌⊎◌, inl, inr, true, false, Option, none, some, [], String, arith, eq→==,
  ==→eq,
}
use ygvcs_py.Prelude.Raises.{Raises, ok}
use ygvcs_py.Store.Query.{is_text, select}
use ygvcs_py.Store.Query.Sorted.{In}
use ygvcs_py.Store.Query.Rows.{is_text-eq}
use ygvcs_py.Store.Tables.{UserTask, Db}
use ygvcs_py.Store.Repos.{save_task}
use ygvcs_py.Tasks.Reply.{JsonResult, success}
use ygvcs_py.Vehicle.Memory.{MemoryTable}
use ygvcs_py.UserTasks.Orders.{has_message}
use ygvcs_py.UserTasks.Sending.{Sender}
use ygvcs_py.UserTasks.Control.{does_task}

-- A task of the message id is taken back: its row alone is written over, with the flag of a
-- cancelled task. The vehicle has no table in Redis, or one that names another task.
pub record EndedTask {W : Type 0} (message_id state : Option String)
    (tables : Option ℕ → Option MemoryTable) (db : Db) (r : Raises JsonResult × Sender W)
    : Type 0 where
  pub task : UserTask
  pub found : In task db.user_tasks
  pub named : (message_id ≡ none) ⊎ (task.message_id ≡ message_id)
  pub asked : state ≡ some "3"
  pub elsewhere :
      (tables task.device_imei ≡ none)
      ⊎ ((m : MemoryTable) × (tables task.device_imei ≡ some m)
          × (m.user_task_id ≢ task.user_task_id))
  pub answer : r.0 ≡ ok success
  pub written : r.1.db ≡ save_task (record task { send_flag = some "7" }) db

-- Why a task is not ended.
pub data NotEnded (message_id state : Option String) (tables : Option ℕ → Option MemoryTable)
    (db : Db) : Type 0 where
  no_task : select (has_message message_id) db.user_tasks ≡ [] → NotEnded message_id state tables db
  not_asked : state ≢ some "3" → NotEnded message_id state tables db
  at_it :
      (t : UserTask) (m : MemoryTable)
      → In t db.user_tasks
      → has_message message_id t ≡ true
      → tables t.device_imei ≡ some m
      → m.user_task_id ≡ t.user_task_id
      → NotEnded message_id state tables db

pub does_task-table :
    (mem : Option MemoryTable) (t : UserTask)
    → does_task mem t ≡ true
    → (m : MemoryTable) × (mem ≡ some m) × (m.user_task_id ≡ t.user_task_id)
does_task-table none t h = absurd (ground arith)
does_task-table (some m) t h = (m, refl, ==→eq m.user_task_id t.user_task_id h)

pub not_asked_for : (state : Option String) → is_text state "3" ≡ false → state ≢ some "3"
not_asked_for none h e = absurd (ground (arith, ap (λ o. is_text o "3") e))
not_asked_for (some u) h e = absurd (ground (arith, h, ap (λ o. is_text o "3") e))

pub not_does_task :
    (mem : Option MemoryTable) (t : UserTask)
    → does_task mem t ≡ false
    → (mem ≡ none) ⊎ ((m : MemoryTable) × (mem ≡ some m) × (m.user_task_id ≢ t.user_task_id))
not_does_task none t h = inl refl
not_does_task (some m) t h =
    inr (m, refl, λ e. absurd (ground (arith, eq→== m.user_task_id t.user_task_id e, h)))

pub named_by :
    (message_id : Option String) (t : UserTask)
    → has_message message_id t ≡ true
    → (message_id ≡ none) ⊎ (t.message_id ≡ message_id)
named_by none t h = inl refl
named_by (some m) t h = inr (is_text-eq t.message_id m h)
