-- ===== src/UserTasks/Control/Taken.antt =====
-- When set_task and cancel_call_device_task take a task back.
use ygvcs_py.Prelude.{
  ℕ, ◌≡◌, refl, ◌⊎◌, inl, inr, Bool, true, false, not, ◌&&◌, Option, none, some, List, [], ◌∷◌,
  ◌++◌, String, Text, arith, Bool-cases, first,
}
use ygvcs_py.Prelude.Raises.{Raises, ok}
use ygvcs_py.Tcp.Futures.{JsonMsg}
use ygvcs_py.Store.Query.{is_text, select, order_desc}
use ygvcs_py.Store.Query.Sorted.{In, In-select}
use ygvcs_py.Store.Query.Rows.{is_text-eq, In-append, In-order_by}
use ygvcs_py.Store.Tables.{UserTask, Db}
use ygvcs_py.Store.Repos.{save_task, select_by_flag_type}
use ygvcs_py.Tasks.Reply.{JsonResult, success}
use ygvcs_py.Vehicle.Memory.{MemoryTable}
use ygvcs_py.UserTasks.Orders.{has_message}
use ygvcs_py.UserTasks.Sending.{Sender}
use ygvcs_py.UserTasks.Queue.{cancelled, open_calls}
use ygvcs_py.UserTasks.Control.Ended.{
  EndedTask, NotEnded, no_task, not_asked, at_it, not_does_task, does_task-table, not_asked_for,
  named_by,
}
use ygvcs_py.UserTasks.Control.{
  does_task, in_task_mode, command, set_vehicle, set_found, set_first, set_task, is_driving,
  cancel_found, cancel_first, cancel_call_device_task,
}

-- The tables are as they were, or a task of them was taken back that its vehicle is not at.
pub record TakenBack (db db' : Db) (tables : Option ℕ → Option MemoryTable)
    (busy : UserTask → Option MemoryTable → Bool) : Type 0 where
  pub task : UserTask
  pub found : In task db.user_tasks
  pub idle : busy task (tables task.device_imei) ≡ false
  pub written : db' ≡ save_task (cancelled task) db

command-db :
    {W : Type 0} (send : Text → W → JsonMsg × W) (act : ℕ → W → Raises JsonResult × W)
    (imei : Option ℕ) (s : Sender W)
    → (command send act imei s).1.db ≡ s.db
command-db send act none s = refl
command-db send act (some i) s = refl

set_vehicle-db :
    {W : Type 0} (send : Text → W → JsonMsg × W) (random : ℕ) (state : Option String) (t : UserTask)
    (mem : Option MemoryTable) (s : Sender W)
    → (set_vehicle send random state t mem s).1.db ≡ s.db
unfolding set_vehicle
set_vehicle-db send random state t mem s = elim (Bool-cases (in_task_mode mem)) [
  | inr e ↦ rw (set_vehicle, e) refl
  | inl e ↦ elim (Bool-cases (is_text state "3")) [
    | inl f ↦ rw (set_vehicle, e, f) (command-db send _ t.device_imei s)
    | inr f ↦ elim (Bool-cases (is_text state "1" && does_task mem t)) [
      | inl g ↦ rw (set_vehicle, e, f, g) (command-db send _ t.device_imei s)
      | inr g ↦ elim (Bool-cases (is_text state "2" && does_task mem t)) [
        | inl h ↦ rw (set_vehicle, e, f, g, h) (command-db send _ t.device_imei s)
        | inr h ↦ rw (set_vehicle, e, f, g, h) refl
      ]
    ]
  ]
]

either : (a b : Bool) → (a && not b) ≡ false → (a ≡ false) ⊎ (b ≡ true)
either true true h = inr refl
either true false h = absurd (ground arith)
either false b h = inl refl

set_found-db :
    {W : Type 0} (send : Text → W → JsonMsg × W) (random : ℕ) (state : Option String) (t : UserTask)
    (mem : Option MemoryTable) (s : Sender W)
    → (((set_found send random state t mem s).1.db ≡ s.db)
        × ((is_text state "3" ≡ false) ⊎ (does_task mem t ≡ true)))
      ⊎ ((does_task mem t ≡ false)
          × (is_text state "3" ≡ true)
          × ((set_found send random state t mem s).0 ≡ ok success)
          × ((set_found send random state t mem s).1.db ≡ save_task (cancelled t) s.db))
unfolding set_found
set_found-db send random state t mem s =
    elim (Bool-cases (is_text state "3" && not (does_task mem t))) [
      | inl e ↦ rw (set_found, e) (inr (ground (arith, e), ground (arith, e), refl, refl))
      | inr e ↦
          rw (set_found, e)
            (inl (
              set_vehicle-db send random state t mem s,
              either (is_text state "3") (does_task mem t) e,
            ))
    ]

cancel_found-db :
    {W : Type 0} (send : Text → W → JsonMsg × W) (random : ℕ) (t : UserTask)
    (mem : Option MemoryTable) (s : Sender W)
    → ((cancel_found send random t mem s).1.db ≡ s.db)
      ⊎ ((is_driving t mem ≡ false)
          × ((cancel_found send random t mem s).1.db ≡ save_task (cancelled t) s.db))
unfolding cancel_found
cancel_found-db send random t mem s = elim (Bool-cases (is_driving t mem)) [
  | inl e ↦ rw (cancel_found, e) (inl (command-db send _ t.device_imei s))
  | inr e ↦ elim (Bool-cases (is_text t.send_flag "3")) [
    | inl f ↦ rw (cancel_found, e, f) (inl refl)
    | inr f ↦ rw (cancel_found, e, f) (inr (refl, refl))
  ]
]

first-In :
    (p : UserTask → Bool) (rows : List UserTask) (t : UserTask) (l : List UserTask)
    → select p rows ≡ t ∷ l
    → In t rows
first-In p rows t l e = (In-select p rows t (rw e (inl refl))).0

-- Setting a task ends a task: the form asks for the end, the task has the form's message id where the
-- form has one, its vehicle has no table in Redis or one that names another task, and the task's row
-- is marked as cancelled. Or it leaves the tables as they were, and then no task has the message id,
-- the end is not asked for, or the vehicle's table names the task.
pub set_task-TakenBack :
    {W : Type 0} (send : Text → W → JsonMsg × W) (random : ℕ) (message_id state : Option String)
    (tables : Option ℕ → Option MemoryTable) (s : Sender W)
    → let r = set_task send random message_id state tables s in
      ((r.1.db ≡ s.db) × NotEnded message_id state tables s.db)
      ⊎ EndedTask message_id state tables s.db r
unfolding set_task
set_task-TakenBack send random message_id state tables s =
    go (select (has_message message_id) s.db.user_tasks) refl
  where
    go :
        (l : List UserTask)
        → select (has_message message_id) s.db.user_tasks ≡ l
        → let r = set_first send random state (first l) tables s in
          ((r.1.db ≡ s.db) × NotEnded message_id state tables s.db)
          ⊎ EndedTask message_id state tables s.db r
    go [] e = inl (refl, no_task e)
    go (t ∷ l) e =
        let (found, named) =
          In-select (has_message message_id) s.db.user_tasks t (rw e (inl refl)) in
        elim (set_found-db send random state t (tables t.device_imei) s) [
          | inl (same, inl other) ↦ inl (same, not_asked (not_asked_for state other))
          | inl (same, inr works) ↦
              let (m, table, number) = does_task-table (tables t.device_imei) t works in
              inl (same, at_it t m found named table number)
          | inr (idle, asked, answer, written) ↦ inr (record {
            task = t;
            found = found;
            named = named_by message_id t named;
            asked = is_text-eq state "3" asked;
            elsewhere = not_does_task (tables t.device_imei) t idle;
            answer = answer;
            written = written;
          })
        ]

open_calls-In : (db : Db) (t : UserTask) → In t (open_calls db) → In t db.user_tasks
unfolding open_calls select_by_flag_type order_desc
open_calls-In db t m =
    elim (In-append (select_by_flag_type "1" "4" true db) (select_by_flag_type "2" "4" true db) t (
      In-order_by _ (select_by_flag_type "1" "4" true db ++ select_by_flag_type "2" "4" true db) t
        m)) [
          | inl a ↦
              (In-select (λ t. is_text t.send_flag "1" && is_text t.task_type "4") db.user_tasks t
                (In-order_by _ _ t a)).0
          | inr b ↦
              (In-select (λ t. is_text t.send_flag "2" && is_text t.task_type "4") db.user_tasks t
                (In-order_by _ _ t b)).0
        ]

-- Cancelling the newest open call leaves the tables as they were, or it takes that call back, and
-- then its vehicle is not driving to it by what the vehicle's table in Redis says.
pub cancel_call_device_task-TakenBack :
    {W : Type 0} (send : Text → W → JsonMsg × W) (random : ℕ)
    (tables : Option ℕ → Option MemoryTable) (s : Sender W)
    → let s' = (cancel_call_device_task send random tables s).1 in
      (s'.db ≡ s.db) ⊎ TakenBack s.db s'.db tables is_driving
unfolding cancel_call_device_task
cancel_call_device_task-TakenBack send random tables s = go (open_calls s.db) refl
  where
    go :
        (l : List UserTask)
        → open_calls s.db ≡ l
        → let s' = (cancel_first send random l tables s).1 in
          (s'.db ≡ s.db) ⊎ TakenBack s.db s'.db tables is_driving
    go [] e = inl refl
    go (t ∷ l) e = elim (cancel_found-db send random t (tables t.device_imei) s) [
      | inl same ↦ inl same
      | inr (idle, written) ↦ inr (record {
        task = t;
        found = open_calls-In s.db t (rw e (inl refl));
        idle = idle;
        written = written;
      })
    ]
