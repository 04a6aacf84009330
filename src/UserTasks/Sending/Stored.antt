-- ===== src/UserTasks/Sending/Stored.antt =====
-- What send_points_task and send_repeat_task write when every frame was carried out.
use ygvcs_py.Prelude.{
  ℕ, ◌≡◌, refl, ap, ◌∙◌, inl, Bool, Option, some, List, [], ◌∷◌, String, arith, first,
}
use ygvcs_py.Prelude.Raises.{Raises, ok}
use ygvcs_py.Store.Query.{select}
use ygvcs_py.Store.Query.Sorted.{In, In-select}
use ygvcs_py.Store.Tables.{UserTask, Db}
use ygvcs_py.Store.Repos.{save_task}
use ygvcs_py.Tasks.Sequences.{add_and_get_user_task_id}
use ygvcs_py.Tasks.Create.Effects.{insert_task_ok}
use ygvcs_py.Vehicle.Memory.{MemoryTable}
use ygvcs_py.Vehicle.Frames.{WayPoint, append_task}
use ygvcs_py.Vehicle.Frames.Dispatch.{way_points_of}
use ygvcs_py.UserTasks.Attempt.{
  goes_on, lift, bind_goes_on, refuse_if-passed, or_refuse-passed, goes_on_inj,
}
use ygvcs_py.UserTasks.Apart.{Appended}
use ygvcs_py.UserTasks.Guards.{
  task_flags, points_flags, idle_vehicle, known_position, keyboard_locked,
}
use ygvcs_py.UserTasks.Orders.{
  TaskPointsForm, Order, is_empty, has_message, points_task, points_frames, points_order,
  vehicle_of, repeat_order,
}

-- The first row of a query is a row of the table.
first-In :
    (p : UserTask → Bool) (rows : List UserTask) (t : UserTask)
    → first (select p rows) ≡ some t
    → In t rows
first-In p rows t e = go (select p rows) refl e
  where
    go : (l : List UserTask) → select p rows ≡ l → first l ≡ some t → In t rows
    go [] f g = absurd (ground (arith, g))
    go (x ∷ l) f g = (In-select p rows t (rw f (inl (ground (arith, g))))).0

pub points_order-Appended :
    (new_id random random' : ℕ) (form : TaskPointsForm) (table : Option MemoryTable) (db db' : Db)
    (o : Order)
    → points_order new_id random random' form table db ≡ goes_on o
    → o.store ≡ ok db'
    → Appended db db'
unfolding points_order points_task add_and_get_user_task_id
points_order-Appended new_id random random' form table db db' o e0 stored =
    let (t, _, e1) = bind_goes_on (idle_vehicle points_flags table) _ o e0 in
    let (_, _, e2) = bind_goes_on (known_position t) _ o e1 in
    let (id, db1) = add_and_get_user_task_id new_id db in
    let ut = points_task id form in
    let (frames, _, e3) =
      bind_goes_on (lift (points_frames random random' ut form.device_imei t)) _ o e2 in
    let (new_number, shape) =
      insert_task_ok ut db1 db' (ap (λ (p : Order). p.store) (goes_on_inj _ o e3) ∙ stored) in
    record {
      task = ut;
      queue = ap (λ (d : Db). d.user_tasks) shape;
      new_number = new_number;
      unnamed = refl;
    }

abbrev pub sent_again : UserTask → UserTask
sent_again t = record t { send_flag = some "2" }

pub repeat_order-saves :
    (to_list : String → Raises (List WayPoint)) (random : ℕ) (message_id : Option String)
    (tables : Option ℕ → Option MemoryTable) (db db' : Db) (o : Order)
    → repeat_order to_list random message_id tables db ≡ goes_on o
    → o.store ≡ ok db'
    → (t : UserTask) × In t db.user_tasks × (db' ≡ save_task (sent_again t) db)
unfolding repeat_order
repeat_order-saves to_list random message_id tables db db' o e0 stored =
    let (t, found, e1) =
      or_refuse-passed (first (select (has_message message_id) db.user_tasks)) _ _ o e0 in
    let (table, _, e2) = bind_goes_on (idle_vehicle task_flags (tables t.device_imei)) _ o e1 in
    let (_, _, e3) = bind_goes_on (known_position table) _ o e2 in
    let (_, _, e4) = bind_goes_on (keyboard_locked table) _ o e3 in
    let (way_points, _, e5) = bind_goes_on (lift (way_points_of to_list t.way_points)) _ o e4 in
    let (imei, _, e6) = bind_goes_on (vehicle_of t) _ o e5 in
    let (frames, _, e7) = bind_goes_on (lift (append_task random t imei way_points)) _ o e6 in
    let (_, e8) = refuse_if-passed (is_empty frames) _ _ o e7 in
    let written = ap (λ (p : Order). p.store) (goes_on_inj _ o e8) ∙ stored in
    (t, first-In (has_message message_id) db.user_tasks t found, ground (arith, written))
