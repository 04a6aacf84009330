-- ===== src/Tasks/Create/Effects.antt =====
-- What a run of create_task leaves behind.
use ygvcs_py.Prelude.{
  ℕ, ◌≡◌, refl, ap, ◌∙◌, ◌⊎◌, inl, inr, false, some, List, [], ◌∷◌, ◌++◌, String, arith,
}
use ygvcs_py.Prelude.Raises.{ok, Raises-cases}
use ygvcs_py.Store.Tables.{UserTask, Db}
use ygvcs_py.Store.Repos.{find_site_task, save_storage}
use ygvcs_py.Tasks.Reply.{Outcome, done}
use ygvcs_py.Tasks.Sequences.{add_and_get_user_task_id}
use ygvcs_py.Tasks.Create.{
  TaskCreateForm, Plan, Choice, refuse, plan, choose, kind_of, new_task, has_task, insert_task,
  mark_storages, run_plan, create_body,
}

-- The first step of a successful run, and the last.
pub record Success (form : TaskCreateForm) (db db' : Db) : Type 0 where
  pub chosen : Plan
  pub task : UserTask
  pub nothing_runs : find_site_task form.code db ≡ []
  pub choice : choose form db ≡ plan chosen
  pub new_number : has_task task.user_task_id db.user_tasks ≡ false
  pub waits : task.send_flag ≡ some "1"
  pub from : task.start_site_code ≡ chosen.start_storage.site_code
  pub to : task.end_site_code ≡ chosen.end_storage.site_code
  pub queue : db'.user_tasks ≡ db.user_tasks ++ task ∷ []
  pub marked : db'.storages ≡ (mark_storages chosen db).storages

-- `add_and_get_user_task_id` touches the sequences only.
kind_of-keeps :
    (new_id template : ℕ) (db : Db)
    → ((kind_of new_id template db).1.user_tasks ≡ db.user_tasks)
      × ((kind_of new_id template db).1.storages ≡ db.storages)
unfolding kind_of add_and_get_user_task_id
kind_of-keeps new_id template db = ground arith

pub insert_task_ok :
    (t : UserTask) (db db' : Db)
    → insert_task t db ≡ ok db'
    → (has_task t.user_task_id db.user_tasks ≡ false)
      × (db' ≡ record db { user_tasks = db.user_tasks ++ t ∷ [] })
unfolding insert_task
insert_task_ok t db db' e = ground arith

run_plan_ok :
    (show : ℕ → String) (new_id auto : ℕ) (form : TaskCreateForm) (p : Plan) (o : Outcome)
    (db db' : Db)
    → run_plan show new_id auto form p db ≡ ok (o, db')
    → let (kind, db1) = kind_of new_id p.template db in
      let t = new_task show form p kind auto in
      (o ≡ done)
      × (has_task t.user_task_id db1.user_tasks ≡ false)
      × (db' ≡ mark_storages p (record db1 { user_tasks = db1.user_tasks ++ t ∷ [] }))
unfolding run_plan
run_plan_ok show new_id auto form p o db db' e =
    let (kind, db1) = kind_of new_id p.template db in
    elim (Raises-cases (insert_task (new_task show form p kind auto) db1)) [
      | inl none_left ↦ absurd (ground arith)
      | inr (db2, inserted) ↦
          let parts = insert_task_ok (new_task show form p kind auto) db1 db2 inserted in
          (ground arith, parts.0, ground (arith, parts.1))
    ]

mark_storages-tasks : (p : Plan) (db : Db) → (mark_storages p db).user_tasks ≡ db.user_tasks
unfolding mark_storages save_storage
mark_storages-tasks p db = refl

mark_storages-same :
    (p : Plan) (a b : Db)
    → a.storages ≡ b.storages
    → (mark_storages p a).storages ≡ (mark_storages p b).storages
unfolding mark_storages save_storage
mark_storages-same p a b e = rw e refl

Success-of_plan :
    (show : ℕ → String) (new_id auto : ℕ) (form : TaskCreateForm) (p : Plan) (o : Outcome)
    (db db' : Db)
    → find_site_task form.code db ≡ []
    → choose form db ≡ plan p
    → run_plan show new_id auto form p db ≡ ok (o, db')
    → (o ≡ done) × Success form db db'
Success-of_plan show new_id auto form p o db db' idle choice e =
    let (finished, new_number, made) = run_plan_ok show new_id auto form p o db db' e in
    let (kind, db1) = kind_of new_id p.template db in
    let (tasks, storages) = kind_of-keeps new_id p.template db in
    (
      finished,
      record {
        chosen = p;
        task = new_task show form p kind auto;
        nothing_runs = idle;
        choice = choice;
        new_number = rw tasks at new_number;
        waits = unfold new_task in refl;
        from = unfold new_task in refl;
        to = unfold new_task in refl;
        queue =
            ap (λ (d : Db). d.user_tasks) made
            ∙ mark_storages-tasks p _
            ∙ ap (λ ts. ts ++ new_task show form p kind auto ∷ []) tasks;
        marked = ap (λ (d : Db). d.storages) made ∙ mark_storages-same p _ db storages;
      },
    )

abbrev pub Verdict : TaskCreateForm → Db → Outcome → Db → Type 0
Verdict form db o db' = ((o.status ≡ false) × (db' ≡ db)) ⊎ ((o ≡ done) × Success form db db')

pub create_body-Verdict :
    (show : ℕ → String) (new_id auto : ℕ) (form : TaskCreateForm) (o : Outcome) (db db' : Db)
    → create_body show new_id auto form db ≡ ok (o, db')
    → Verdict form db o db'
unfolding create_body
create_body-Verdict show new_id auto form o db db' e =
    go (find_site_task form.code db) (choose form db) refl refl
  where
    go :
        (ts : List UserTask) (c : Choice)
        → find_site_task form.code db ≡ ts
        → choose form db ≡ c
        → Verdict form db o db'
    go (t ∷ ts) c f g = inl (ground arith)
    go [] (refuse n) f g = inl (ground arith)
    go [] (plan p) f g =
        inr (Success-of_plan show new_id auto form p o db db' f g (rw (f, g, create_body) at e))
