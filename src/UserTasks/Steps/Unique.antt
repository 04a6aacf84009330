-- ===== src/UserTasks/Steps/Unique.antt =====
-- Numbers and message ids are used once in every state that calls lead to.
use ygvcs_py.Prelude.{
  ℕ, ◌≡◌, refl, sym, ◌⊎◌, inl, inr, Bool, true, false, Option, none, some, List, [], String, Text,
  ◌==◌, arith, Bool-cases,
}
use mathlib.Core.Path.{subst}
use ygvcs_py.Prelude.Raises.{Raises, ok}
use ygvcs_py.Tcp.Futures.{JsonMsg}
use ygvcs_py.Store.Query.{is_text, select}
use ygvcs_py.Store.Query.Sorted.{In, select-In}
use ygvcs_py.Store.Tables.{UserTask, Db}
use ygvcs_py.Store.Repos.{save_task}
use ygvcs_py.Tasks.Reply.{JsonResult}
use ygvcs_py.Vehicle.Memory.{MemoryTable}
use ygvcs_py.UserTasks.Apart.{
  AllApart, AllApart-delete, Keeps, AllApart-update, same_message, same_row, update-row,
  snoc-AllApart, no_message, other_message, Appended,
}
use ygvcs_py.UserTasks.Orders.{WebTaskAddForm, is_blank, has_message, points_order, repeat_order}
use ygvcs_py.UserTasks.Sending.{Sender, send_points_task, send_repeat_task}
use ygvcs_py.UserTasks.Sending.Settled.{carry_out-Settled}
use ygvcs_py.UserTasks.Sending.Added.{Added, add_task-Added}
use ygvcs_py.UserTasks.Sending.Stored.{points_order-Appended, repeat_order-saves}
use ygvcs_py.UserTasks.Queue.{
  cancelled, waits_for, cancel_task, clear_task, del_user_task, call_device_task,
}
use ygvcs_py.UserTasks.Queue.Calls.{call_device_task-Appended}
use ygvcs_py.UserTasks.Control.{is_driving}
use ygvcs_py.UserTasks.Control.Taken.{
  TakenBack, set_task-TakenBack, cancel_call_device_task-TakenBack,
}
use ygvcs_py.UserTasks.Steps.{
  Step, adds, sends_points, repeats, calls, cancels, clears, deletes, sets, cancels_call, Reaches,
  stays, then_calls,
}

-- No two rows of the table share their number, or a message id.
pub record Unique (db : Db) : Type 0 where
  pub rows : AllApart db.user_tasks

Unique-same : (db db' : Db) → db'.user_tasks ≡ db.user_tasks → Unique db → Unique db'
Unique-same db db' e u = record { rows = rw e u.rows }

Keeps-flagged : (flag : String) → Keeps (λ t. record t { send_flag = some flag })
Keeps-flagged flag = record { number = λ t. refl; message = λ t. refl }

-- Writing a row of the table back with another send flag.
Unique-save :
    (flag : String) (t : UserTask) (db : Db)
    → In t db.user_tasks
    → Unique db
    → Unique (save_task (record t { send_flag = some flag }) db)
unfolding save_task
Unique-save flag t db m u = record {
  rows =
      subst AllApart
        (sym (
          update-row (λ t. record t { send_flag = some flag }) t db.user_tasks
            (λ r n e. same_row db.user_tasks t r u.rows m n e)))
        (AllApart-update (λ t. record t { send_flag = some flag })
          (λ r. r.user_task_id == t.user_task_id) db.user_tasks (Keeps-flagged flag) u.rows);
}

-- A message id that a search did not find stands in no row.
not_in_table :
    (message : Option String) (rows : List UserTask) (u : UserTask)
    → is_blank message ≡ false
    → select (has_message message) rows ≡ []
    → In u rows
    → same_message u.message_id message ≡ false
not_in_table none rows u named none_there m = absurd (ground (arith, named))
not_in_table (some v) rows u named none_there m = elim (Bool-cases (is_text u.message_id v)) [
  | inr f ↦ other_message u.message_id v f
  | inl t ↦ absurd (subst (In u) none_there (select-In (has_message (some v)) rows u m t))
]

module _ {W : Type 0} (send : Text → W → JsonMsg × W) where
  Unique-Added :
      (random : ℕ) (form : WebTaskAddForm) (s s' : Sender W) (r : Raises JsonResult)
      → Added send random form s s' r
      → Unique s.db
      → Unique s'.db
  Unique-Added random form s s' r a u = record {
    rows = subst AllApart (sym a.queue) (
        snoc-AllApart s.db.user_tasks a.task a.new_number
          (λ t m.
            subst (λ x. same_message t.message_id x ≡ false) (sym a.message)
              (not_in_table form.message_id s.db.user_tasks t a.named a.new_message m))
          u.rows);
  }

Unique-Appended : (db db' : Db) → Appended db db' → Unique db → Unique db'
Unique-Appended db db' a u = record {
  rows = subst AllApart (sym a.queue) (
      snoc-AllApart db.user_tasks a.task a.new_number
        (λ t m.
          subst (λ x. same_message t.message_id x ≡ false) (sym a.unnamed)
            (no_message t.message_id))
        u.rows);
}

Unique-TakenBack :
    (db db' : Db) (tables : Option ℕ → Option MemoryTable)
    (busy : UserTask → Option MemoryTable → Bool)
    → (db' ≡ db) ⊎ TakenBack db db' tables busy
    → Unique db
    → Unique db'
Unique-TakenBack db db' tables busy (inl same) u = subst Unique (sym same) u
Unique-TakenBack db db' tables busy (inr t) u =
    subst Unique (sym t.written) (Unique-save "7" t.task db t.found u)

Unique-call :
    (show : ℕ → String) (new_id : ℕ) (site : Option ℕ) (start_handel : Option String)
    (j : JsonResult) (db db' : Db)
    → call_device_task show new_id site start_handel db ≡ ok (j, db')
    → Unique db
    → Unique db'
Unique-call show new_id site start_handel j db db' e u =
    elim (call_device_task-Appended show new_id site start_handel j db db' e) [
      | inl same ↦ subst Unique (sym same) u
      | inr (a, _) ↦ Unique-Appended db db' a u
    ]

Unique-cancel : (imei : Option ℕ) (db : Db) → Unique db → Unique (cancel_task imei db).1
unfolding cancel_task
Unique-cancel none db u = u
Unique-cancel (some imei) db u = record {
  rows = AllApart-update cancelled (waits_for imei) db.user_tasks (Keeps-flagged "7") u.rows;
}

module _ {W : Type 0} (send : Text → W → JsonMsg × W) where
  -- One call of the service keeps numbers and message ids used once.
  Unique-Step : (s s' : Sender W) → Step send s s' → Unique s.db → Unique s'.db
  unfolding clear_task del_user_task send_points_task send_repeat_task
  Unique-Step s _ (adds dump new_id random form table) u =
      elim (add_task-Added send dump new_id random form table s) [
        | inl same ↦ subst Unique (sym same) u
        | inr a ↦ Unique-Added send random form s _ _ a u
      ]
  Unique-Step s _ (sends_points new_id random random' form table) u =
      elim (carry_out-Settled send (points_order new_id random random' form table s.db) s) [
        | inl same ↦ subst Unique (sym same) u
        | inr (o, e, settled) ↦
            Unique-Appended s.db _
              (points_order-Appended new_id random random' form table s.db _ o e settled.written) u
      ]
  Unique-Step s _ (repeats to_list random message_id tables) u =
      elim (carry_out-Settled send (repeat_order to_list random message_id tables s.db) s) [
        | inl same ↦ subst Unique (sym same) u
        | inr (o, e, settled) ↦
            let (t, m, written) =
              repeat_order-saves to_list random message_id tables s.db _ o e settled.written in
            subst Unique (sym written) (Unique-save "2" t s.db m u)
      ]
  Unique-Step s _ (calls show new_id site start_handel j db e) u =
      Unique-call show new_id site start_handel j s.db db e u
  Unique-Step s _ (cancels imei) u = Unique-cancel imei s.db u
  Unique-Step s _ clears u = record { rows = AllApart-delete (λ _. true) s.db.user_tasks u.rows }
  Unique-Step s _ (deletes id) u = record {
    rows = AllApart-delete (λ t. t.user_task_id == id) s.db.user_tasks u.rows;
  }
  Unique-Step s _ (sets random message_id state tables) u =
      elim (set_task-TakenBack send random message_id state tables s) [
        | inl (same, _) ↦ subst Unique (sym same) u
        | inr t ↦ subst Unique (sym t.written) (Unique-save "7" t.task s.db t.found u)
      ]
  Unique-Step s _ (cancels_call random tables) u =
      Unique-TakenBack s.db _ tables is_driving
        (cancel_call_device_task-TakenBack send random tables s) u

  -- Where no two user tasks share their number or a message id, none do after any calls of the
  -- service, whatever the vehicles answer.
  pub Reaches-Unique : (s s' : Sender W) → Reaches send s s' → Unique s.db → Unique s'.db
  Reaches-Unique s _ stays u = u
  Reaches-Unique s s' (then_calls {t = t} before step) u =
      Unique-Step t s' step (Reaches-Unique s t before u)
