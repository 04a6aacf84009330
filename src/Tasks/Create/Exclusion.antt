-- ===== src/Tasks/Create/Exclusion.antt =====
-- One task at a site at a time, and what becomes of the storage rows.
use ygvcs_py.Prelude.{
  ℕ, ◌≡◌, ◌≢◌, refl, ap, ◌∙◌, ◌⊎◌, inl, inr, Bool, true, false, ◌&&◌, ◌||◌, some, List, [], ◌∷◌,
  ◌++◌, String, str_eq, arith, Bool-cases, first, ==_refl,
}
use mathlib.Core.Path.{subst}
use text.Mathlib.TextPositions.{eq_refl}
use ygvcs_py.Prelude.Raises.{ok}
use ygvcs_py.Store.Query.{is_text, is_number, select, select_one, update_by_example}
use ygvcs_py.Store.Query.Sorted.{In, In-select, select-In}
use ygvcs_py.Store.Tables.{UserTask, Storage, Db}
use ygvcs_py.Store.Repos.{find_site_task, save_storage}
use ygvcs_py.Tasks.Reply.{site_notice, Outcome, done, refused}
use ygvcs_py.Tasks.Create.{
  Imei, same_imei, is_busy, discard, TaskCreateForm, Plan, plan, choose_call, choose_fill, choose,
  mark_storages, create_body, create_task, nobody, written, number,
}
use ygvcs_py.Tasks.Create.Effects.{Success, Verdict, create_body-Verdict}

-- A run that ends without an exception either refuses and leaves the database as it was, or does
-- its work in full: no task was in progress at the site, and one task is added that waits.
pub create_task-Verdict :
    (show : ℕ → String) (new_id auto : ℕ) (form : TaskCreateForm) (busy : List Imei) (o : Outcome)
    (db db' : Db)
    → (create_task show new_id auto form busy db).result ≡ ok (o, db')
    → Verdict form db o db'
unfolding create_task
create_task-Verdict show new_id auto form busy o db db' e =
    elim (Bool-cases (is_busy form.device_imei busy)) [
      | inl b ↦ inl (ground arith)
      | inr f ↦ create_body-Verdict show new_id auto form o db db' (rw f at e)
    ]

same_imei_refl : (i : Imei) → same_imei i i ≡ true
same_imei_refl nobody = refl
same_imei_refl (written s) = eq_refl s
same_imei_refl (number n) = ==_refl n

discard_absent : (i : Imei) (busy : List Imei) → is_busy i busy ≡ false → discard i busy ≡ busy
unfolding is_busy discard
discard_absent i [] h = refl
discard_absent i (j ∷ busy) h = ground (arith, discard_absent i busy)

pub discard_own :
    (i : Imei) (busy : List Imei) → is_busy i busy ≡ false → discard i (i ∷ busy) ≡ busy
unfolding discard
discard_own i busy h = rw (same_imei_refl i) (discard_absent i busy h)

-- The set of busy devices is the same before and after a call, whatever the call does, a raise
-- included.
pub create_task-busy :
    (show : ℕ → String) (new_id auto : ℕ) (form : TaskCreateForm) (busy : List Imei) (db : Db)
    → (create_task show new_id auto form busy db).busy ≡ busy
unfolding create_task
create_task-busy show new_id auto form busy db = elim (Bool-cases (is_busy form.device_imei busy)) [
  | inl b ↦ rw b refl
  | inr f ↦ rw f (discard_own form.device_imei busy f)
]

select_one_holds :
    (p : Storage → Bool) (rows : List Storage) (s : Storage)
    → select_one p rows ≡ some s
    → p s ≡ true
unfolding select_one
select_one_holds p rows s e = go (select p rows) refl e
  where
    go : (l : List Storage) → select p rows ≡ l → first l ≡ some s → p s ≡ true
    go [] f g = absurd (ground arith)
    go (x ∷ l) f g = (In-select p rows s (rw f (inl (ground arith)))).1

-- The site that is called at is an end of the plan.
choose_at_site :
    (form : TaskCreateForm) (db : Db) (p : Plan)
    → choose form db ≡ plan p
    → (is_number p.start_storage.site_code form.code ≡ true)
      ⊎ (is_number p.end_storage.site_code form.code ≡ true)
unfolding choose choose_call choose_fill
choose_at_site form db p e = ground (
  arith,
  select_one_holds (λ s. is_number s.site_code form.code) db.storages p.end_storage,
  select_one_holds (λ s. is_number s.site_code form.code) db.storages p.start_storage,
)

In-snoc : (t : UserTask) (ts : List UserTask) → In t (ts ++ t ∷ [])
In-snoc t [] = inl refl
In-snoc t (x ∷ ts) = inr (In-snoc t ts)

find_site_task_busy :
    (code : ℕ) (t : UserTask) (db : Db)
    → In t db.user_tasks
    → t.send_flag ≡ some "1"
    → (is_number t.start_site_code code ≡ true) ⊎ (is_number t.end_site_code code ≡ true)
    → find_site_task code db ≢ []
unfolding find_site_task
find_site_task_busy code t db member flag at none_there =
    subst (In t) none_there (select-In _ db.user_tasks t member matches)
  where
    matches :
        ((is_text t.send_flag "1" || is_text t.send_flag "2")
          && (is_number t.start_site_code code || is_number t.end_site_code code))
        ≡ true
    matches = rw flag (ground arith)

create_body_refuses :
    (show : ℕ → String) (new_id auto : ℕ) (form : TaskCreateForm) (db : Db)
    → find_site_task form.code db ≢ []
    → create_body show new_id auto form db
      ≡ ok (refused (site_notice form.code "TaskService.createTask.taskIsExecuted"), db)
unfolding create_body
create_body_refuses show new_id auto form db busy = go (find_site_task form.code db) refl
  where
    go :
        (ts : List UserTask)
        → find_site_task form.code db ≡ ts
        → create_body show new_id auto form db
          ≡ ok (refused (site_notice form.code "TaskService.createTask.taskIsExecuted"), db)
    go [] e = absurd (busy e)
    go (t ∷ ts) e = rw (e, create_body) refl

-- After a run that created a task, a second run at the same site is refused and changes nothing,
-- whoever calls and for whichever direction.
pub create_task_twice :
    (show : ℕ → String) (new_id auto new_id' auto' : ℕ) (form form' : TaskCreateForm)
    (busy busy' : List Imei) (db db' : Db)
    → (create_task show new_id auto form busy db).result ≡ ok (done, db')
    → form'.code ≡ form.code
    → is_busy form'.device_imei busy' ≡ false
    → (create_task show new_id' auto' form' busy' db').result
      ≡ ok (refused (site_notice form.code "TaskService.createTask.taskIsExecuted"), db')
unfolding create_task
create_task_twice show new_id auto new_id' auto' form form' busy busy' db db' e same free =
    elim (create_task-Verdict show new_id auto form busy done db db' e) [
      | inl (failed, _) ↦ absurd (ground arith)
      | inr (_, s) ↦ rw free (
          create_body_refuses show new_id' auto' form' db' (rw same (in_progress s))
          ∙ ap (λ c. ok (refused (site_notice c "TaskService.createTask.taskIsExecuted"), db'))
              same)
    ]
  where
    in_progress : Success form db db' → find_site_task form.code db' ≢ []
    in_progress s =
        find_site_task_busy form.code s.task db' (rw s.queue (In-snoc s.task db.user_tasks)) s.waits
          (elim (choose_at_site form db s.chosen s.choice) [
            | inl a ↦ inl (rw s.from a)
            | inr b ↦ inr (rw s.to b)
          ])

-- A row of the table after both writes: the end's row, the start's row, or a row as it was.
abbrev pub Marked : Plan → List Storage → Storage → Type 0
Marked p rows s =
    (s ≡ record (p.end_storage) { site_status = some "3" })
    ⊎ (s ≡ record (p.start_storage) { site_status = some "2" })
    ⊎ (In s rows
        × (str_eq s.storage_id p.start_storage.storage_id ≡ false)
        × (str_eq s.storage_id p.end_storage.storage_id ≡ false))

In-update :
    (v : Storage) (p : Storage → Bool) (rows : List Storage) (s : Storage)
    → In s (update_by_example (λ _. v) p rows)
    → (s ≡ v) ⊎ (In s rows × (p s ≡ false))
unfolding update_by_example
In-update v p [] s h = absurd h
In-update v p (r ∷ rows) s (inr later) = elim (In-update v p rows s later) [
  | inl e ↦ inl e
  | inr (m, f) ↦ inr (inr m, f)
]
In-update v p (r ∷ rows) s (inl e) = elim (Bool-cases (p r)) [
  | inl t ↦ inl (rw t at e)
  | inr f ↦ let e' = rw f at e in inr (inl e', rw e' f)
]

-- After a run that created a task by a plan, every storage row is the row of the plan's end with
-- status "3", the row of its start with status "2", or a row of another storage as it was.
pub create_task-storages :
    (show : ℕ → String) (new_id auto : ℕ) (form : TaskCreateForm) (busy : List Imei) (db db' : Db)
    (row : Storage)
    → (create_task show new_id auto form busy db).result ≡ ok (done, db')
    → In row db'.storages
    → (p : Plan) × (choose form db ≡ plan p) × Marked p db.storages row
unfolding mark_storages save_storage
create_task-storages show new_id auto form busy db db' row e m =
    elim (create_task-Verdict show new_id auto form busy done db db' e) [
      | inl (failed, _) ↦ absurd (ground arith)
      | inr (_, s) ↦ (s.chosen, s.choice, classify s.chosen row (subst (In row) s.marked m))
    ]
  where
    classify :
        (p : Plan) (row : Storage) → In row (mark_storages p db).storages → Marked p db.storages row
    classify p row m =
        elim (In-update (record (p.end_storage) { site_status = some "3" })
          (λ r. str_eq r.storage_id p.end_storage.storage_id)
          (save_storage (record (p.start_storage) { site_status = some "2" }) db).storages row m) [
            | inl end ↦ inl end
            | inr (m', other) ↦
                elim (In-update (record (p.start_storage) { site_status = some "2" })
                  (λ r. str_eq r.storage_id p.start_storage.storage_id) db.storages row m') [
                    | inl start ↦ inr (inl start)
                    | inr (m'', other') ↦ inr (inr (m'', other', other))
                  ]
          ]
