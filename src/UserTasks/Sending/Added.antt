-- ===== src/UserTasks/Sending/Added.antt =====
-- add_task: the task that is in the table once every frame of it was carried out.
use ygvcs_py.Prelude.{
  ℕ, ◌≡◌, refl, sym, ap, ◌∙◌, ◌⊎◌, inl, inr, false, not, Option, some, List, [], ◌∷◌, ◌++◌, String,
  Text, arith,
}
use mathlib.Core.Path.{subst}
use ygvcs_py.Prelude.Raises.{Raises, ok}
use ygvcs_py.Tcp.Futures.{JsonMsg}
use ygvcs_py.Store.Query.{select, is_number}
use ygvcs_py.Store.Tables.{UserTask, Db}
use ygvcs_py.Tasks.Reply.{JsonResult, success_of}
use ygvcs_py.Tasks.Sequences.{add_and_get_user_task_id}
use ygvcs_py.Tasks.Create.{has_task}
use ygvcs_py.Tasks.Create.Effects.{insert_task_ok}
use ygvcs_py.Vehicle.Memory.{MemoryTable}
use ygvcs_py.Vehicle.Frames.{WayPoint, append_task, append_task_msg}
use ygvcs_py.UserTasks.Attempt.{
  goes_on, lift, bind_goes_on, refuse_if-passed, or_refuse-passed, lift-ok, goes_on_inj,
}
use ygvcs_py.UserTasks.Guards.{task_flags, idle_vehicle, known_position, keyboard_locked}
use ygvcs_py.UserTasks.Orders.{
  WebTaskAddForm, Order, is_empty, is_blank, has_message, site_manage, end_name, added_task,
  checked_form, add_order,
}
use ygvcs_py.UserTasks.Sending.{Sender, add_task}
use ygvcs_py.UserTasks.Sending.Settled.{CarriedOut, Settled, carry_out-Settled}

-- What the checks on the form leave: the message is new, and the task carries it.
record Checked (form : WebTaskAddForm) (db : Db) (made : UserTask × Db) : Type 0 where
  named : is_blank form.message_id ≡ false
  new_message : select (has_message form.message_id) db.user_tasks ≡ []
  message : made.0.message_id ≡ form.message_id
  vehicle : made.0.device_imei ≡ some form.device_imei
  same_tasks : made.1.user_tasks ≡ db.user_tasks

is_empty-nil : {A : Type 0} (xs : List A) → not (is_empty xs) ≡ false → xs ≡ []
is_empty-nil [] h = refl
is_empty-nil (x ∷ xs) h = absurd (ground (arith, h))

checked_form-Checked :
    (dump : List WayPoint → String) (new_id : ℕ) (form : WebTaskAddForm) (db : Db)
    (made : UserTask × Db)
    → checked_form dump new_id form db ≡ goes_on made
    → Checked form db made
unfolding checked_form added_task add_and_get_user_task_id
checked_form-Checked dump new_id form db made e0 =
    let (named, e1) = refuse_if-passed (is_blank form.message_id) _ _ made e0 in
    let (start, _, e2) = or_refuse-passed form.start_site_code _ _ made e1 in
    let (_, e3) = refuse_if-passed (is_number form.end_site_code start) _ _ made e2 in
    let (new_message, e4) =
      refuse_if-passed (not (is_empty (select (has_message form.message_id) db.user_tasks))) _ _
        made e3 in
    let (start_site, _, e5) = or_refuse-passed (site_manage start db) _ _ made e4 in
    let (name, _, e6) = bind_goes_on (end_name form.end_site_code db) _ made e5 in
    let final = goes_on_inj _ made e6 in
    record {
      named = named;
      new_message = is_empty-nil _ new_message;
      message = sym (ap (λ (m : UserTask × Db). m.0.message_id) final);
      vehicle = sym (ap (λ (m : UserTask × Db). m.0.device_imei) final);
      same_tasks = sym (ap (λ (m : UserTask × Db). m.1.user_tasks) final);
    }

-- What a run of add_task that wrote something wrote, and why it could.
pub record Added {W : Type 0} (send : Text → W → JsonMsg × W) (random : ℕ) (form : WebTaskAddForm)
    (s s' : Sender W) (r : Raises JsonResult) : Type 0 where
  pub task : UserTask
  pub frames : List Text
  pub answered : r ≡ ok (success_of form.message_id)
  pub queue : s'.db.user_tasks ≡ s.db.user_tasks ++ task ∷ []
  pub sent : task.send_flag ≡ some "2"
  pub message : task.message_id ≡ form.message_id
  pub named : is_blank form.message_id ≡ false
  pub built : append_task random task form.device_imei form.task_way_points ≡ ok frames
  pub new_message : select (has_message form.message_id) s.db.user_tasks ≡ []
  pub new_number : has_task task.user_task_id s.db.user_tasks ≡ false
  pub carried_out : CarriedOut send frames s.world s'.world

add_order-Added :
    {W : Type 0} (send : Text → W → JsonMsg × W) (dump : List WayPoint → String) (new_id random : ℕ)
    (form : WebTaskAddForm) (table : Option MemoryTable) (s s' : Sender W) (r : Raises JsonResult)
    (o : Order)
    → add_order dump new_id random form table s.db ≡ goes_on o
    → Settled send o s s' r
    → Added send random form s s' r
unfolding add_order append_task append_task_msg
add_order-Added send dump new_id random form table s s' r o e0 settled =
    let (t, _, e1) = bind_goes_on (idle_vehicle task_flags table) _ o e0 in
    let (_, _, e2) = bind_goes_on (known_position t) _ o e1 in
    let (_, _, e3) = bind_goes_on (keyboard_locked t) _ o e2 in
    let (made, checks, e4) = bind_goes_on (checked_form dump new_id form s.db) _ o e3 in
    let (frames, built, e5) =
      bind_goes_on (lift (append_task random made.0 form.device_imei form.task_way_points)) _ o
        e4 in
    let (_, e6) = refuse_if-passed (is_empty frames) _ _ o e5 in
    let final = goes_on_inj _ o e6 in
    let checked = checked_form-Checked dump new_id form s.db made checks in
    let (new_number, db') =
      insert_task_ok (record (made.0) { send_flag = some "2" }) made.1 s'.db
        (ap (λ (p : Order). p.store) final ∙ settled.written) in
    record {
      task = record (made.0) { send_flag = some "2" };
      frames = o.frames;
      answered = settled.answered ∙ sym (ap (λ (p : Order). ok p.answer) final);
      queue =
          ap (λ (d : Db). d.user_tasks) db'
          ∙ ap (λ ts. ts ++ record (made.0) { send_flag = some "2" } ∷ []) checked.same_tasks;
      sent = refl;
      message = checked.message;
      named = checked.named;
      new_message = checked.new_message;
      new_number =
          subst (λ ts. has_task made.0.user_task_id ts ≡ false) checked.same_tasks new_number;
      built = lift-ok _ frames built ∙ ap (λ (p : Order). ok p.frames) final;
      carried_out = settled.carried_out;
    }

-- A call that sends a task either leaves every table as it was, or answers with the form's message
-- id and adds one task: its number and its message id were not in the table, every frame of
-- the task was carried out by the vehicle, and the task counts as sent.
pub add_task-Added :
    {W : Type 0} (send : Text → W → JsonMsg × W) (dump : List WayPoint → String) (new_id random : ℕ)
    (form : WebTaskAddForm) (table : Option MemoryTable) (s : Sender W)
    → let (r, s') = add_task send dump new_id random form table s in
      (s'.db ≡ s.db) ⊎ Added send random form s s' r
unfolding add_task
add_task-Added send dump new_id random form table s =
    elim (carry_out-Settled send (add_order dump new_id random form table s.db) s) [
      | inl same ↦ inl same
      | inr (o, e, settled) ↦
          inr (add_order-Added send dump new_id random form table s _ _ o e settled)
    ]
