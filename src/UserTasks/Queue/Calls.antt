-- ===== src/UserTasks/Queue/Calls.antt =====
-- At most one call of a vehicle is open.
use ygvcs_py.Prelude.{
  ℕ, ◌≤◌, ◌≡◌, refl, ap, sym, ◌∙◌, ◌⊎◌, inl, inr, Bool, false, ◌&&◌, Option, none, some, List, [],
  ◌∷◌, ◌++◌, String, length, arith, Bool-cases,
}
use mathlib.Core.Path.{subst}
use ygvcs_py.Prelude.Raises.{Raises, ok, raised, ◌>>=◌, except, Raises-cases}
use ygvcs_py.Store.Query.{is_text, select}
use ygvcs_py.Store.Query.Rows.{select-append}
use ygvcs_py.Store.Tables.{UserTask, Db}
use ygvcs_py.Store.Repos.{in_values, select_by_flags_type}
use ygvcs_py.Tasks.Reply.{Notice, JsonResult, success, fail}
use ygvcs_py.Tasks.Sequences.{add_and_get_user_task_id}
use ygvcs_py.Tasks.Create.{has_task, insert_task}
use ygvcs_py.Tasks.Create.Effects.{insert_task_ok}
use ygvcs_py.UserTasks.Apart.{Appended}
use ygvcs_py.UserTasks.Queue.{call_task, call_written, call_device_task}

abbrev pub open_flags : List String
open_flags = "1" ∷ "2" ∷ []

abbrev is_open_call : UserTask → Bool
is_open_call t = in_values t.send_flag open_flags && is_text t.task_type "4"

-- The calls that wait or are under way.
abbrev pub OneCall : Db → Type 0
OneCall db = length (select_by_flags_type open_flags "4" db) ≤ 1

one_or_none : (p : UserTask → Bool) (t : UserTask) → length (select p (t ∷ [])) ≤ 1
unfolding select
one_or_none p t = elim (Bool-cases (p t)) [
  | inl h ↦ rw (length, h) (omega arith)
  | inr h ↦ rw (length, h) (omega arith)
]

abbrev second : Db → Raises (JsonResult × Db) → Db
second d (ok p) = p.1
second d raised = d

-- A call that was written.
call_made :
    (show : ℕ → String) (new_id site : ℕ) (start_handel : Option String) (j : JsonResult)
    (db db' : Db)
    → (let (id, db1) = add_and_get_user_task_id new_id db in
        insert_task (call_task show id site start_handel) db1 >>= call_written)
      ≡ ok (j, db')
    → let (id, db1) = add_and_get_user_task_id new_id db in
      let t = call_task show id site start_handel in
      (has_task t.user_task_id db.user_tasks ≡ false)
      × (db'.user_tasks ≡ db.user_tasks ++ t ∷ [])
      × (success ≡ j)
unfolding add_and_get_user_task_id
call_made show new_id site start_handel j db db' e =
    let (id, db1) = add_and_get_user_task_id new_id db in
    let t = call_task show id site start_handel in
    elim (Raises-cases (insert_task t db1)) [
      | inl stopped ↦ absurd (ground (arith, rw stopped at e))
      | inr (db2, made) ↦
          let (fresh, shape) = insert_task_ok t db1 db2 made in
          let ended = ap (second db') (rw made at e) in
          (
            fresh,
            ap (λ (d : Db). d.user_tasks) (sym ended ∙ shape),
            ap (λ (m : Raises (JsonResult × Db)). (except m (j, db')).0) (rw made at e),
          )
    ]

-- Calling a vehicle changes nothing, or adds a call, and then no other call was open.
pub call_device_task-Appended :
    (show : ℕ → String) (new_id : ℕ) (site : Option ℕ) (start_handel : Option String)
    (j : JsonResult) (db db' : Db)
    → call_device_task show new_id site start_handel db ≡ ok (j, db')
    → (db' ≡ db) ⊎ (Appended db db' × (select_by_flags_type open_flags "4" db ≡ []))
unfolding call_device_task
call_device_task-Appended show new_id none start_handel j db db' e = inl (sym (ap (second db) e))
call_device_task-Appended show new_id (some site) start_handel j db db' e =
    go (select_by_flags_type open_flags "4" db) refl
  where
    go :
        (l : List UserTask)
        → select_by_flags_type open_flags "4" db ≡ l
        → (db' ≡ db) ⊎ (Appended db db' × (select_by_flags_type open_flags "4" db ≡ []))
    go (t ∷ l) f = inl (sym (ap (second db) (rw (call_device_task, f) at e)))
    go [] f =
        let (fresh, queue, _) =
          call_made show new_id site start_handel j db db' (rw (call_device_task, f) at e) in
        inr (
          record {
            task = call_task show (add_and_get_user_task_id new_id db).0 site start_handel;
            queue = queue;
            new_number = fresh;
            unnamed = unfold call_task in refl;
          },
          f,
        )

-- How a call ends: without a station, or while a call is open, it is refused and changes nothing, and
-- else a call to the station is added that waits.
pub data CallEnds (site : Option ℕ) (db : Db) : JsonResult → Db → Type 0 where
  no_site : {n : Notice} → site ≡ none → CallEnds site db (fail "1" n) db
  open_already :
      {t : UserTask} {l : List UserTask} {n : Notice}
      → select_by_flags_type open_flags "4" db ≡ t ∷ l
      → CallEnds site db (fail "1" n) db
  called :
      {code : ℕ} {db' : Db} (t : UserTask)
      → site ≡ some code
      → select_by_flags_type open_flags "4" db ≡ []
      → t.send_flag ≡ some "1"
      → t.task_type ≡ some "4"
      → t.start_site_code ≡ some code
      → db'.user_tasks ≡ db.user_tasks ++ t ∷ []
      → CallEnds site db success db'

call_device_task-CallEnds :
    (show : ℕ → String) (new_id : ℕ) (site : Option ℕ) (start_handel : Option String)
    (j : JsonResult) (db db' : Db)
    → call_device_task show new_id site start_handel db ≡ ok (j, db')
    → CallEnds site db j db'
unfolding call_device_task
call_device_task-CallEnds show new_id none start_handel j db db' e =
    subst (λ (p : JsonResult × Db). CallEnds none db p.0 p.1) (ap (λ m. except m (j, db')) e)
      (no_site refl)
call_device_task-CallEnds show new_id (some code) start_handel j db db' e =
    go (select_by_flags_type open_flags "4" db) refl
  where
    go :
        (l : List UserTask)
        → select_by_flags_type open_flags "4" db ≡ l
        → CallEnds (some code) db j db'
    go (t ∷ l) f =
        subst (λ (p : JsonResult × Db). CallEnds (some code) db p.0 p.1)
          (ap (λ m. except m (j, db')) (rw (call_device_task, f) at e)) (open_already f)
    go [] f =
        let made = rw (call_device_task, f) at e in
        let (fresh, queue, ended) = call_made show new_id code start_handel j db db' made in
        subst (λ r. CallEnds (some code) db r db') ended
          (called (call_task show (add_and_get_user_task_id new_id db).0 code start_handel) refl f
            (unfold call_task in refl) (unfold call_task in refl) (unfold call_task in refl) queue)

CallEnds-OneCall :
    (site : Option ℕ) (db db' : Db) (j : JsonResult)
    → CallEnds site db j db'
    → OneCall db
    → OneCall db'
unfolding select_by_flags_type
CallEnds-OneCall site db db' j (no_site e) one = one
CallEnds-OneCall site db db' j (open_already e) one = one
CallEnds-OneCall site db db' j (called t e free flag type start queue) one =
    subst (λ rows. length (select is_open_call rows) ≤ 1) (sym queue)
      (rw (select-append is_open_call db.user_tasks (t ∷ []), free) (one_or_none is_open_call t))

-- A call that returns is refused and changes nothing when it names no station or while another call
-- is open, and else adds one task, for a vehicle to come to the station, that waits. Either way no
-- more than one call is open afterwards where no more than one was before.
pub call_device_task-OneCall :
    (show : ℕ → String) (new_id : ℕ) (site : Option ℕ) (start_handel : Option String)
    (j : JsonResult) (db db' : Db)
    → call_device_task show new_id site start_handel db ≡ ok (j, db')
    → OneCall db
    → CallEnds site db j db' × OneCall db'
call_device_task-OneCall show new_id site start_handel j db db' e one =
    let ends = call_device_task-CallEnds show new_id site start_handel j db db' e in
    (ends, CallEnds-OneCall site db db' j ends one)

-- Where no call is open and the next number is not taken, a call to a station is accepted, and
-- the one open call then waits, is for no vehicle yet, and has the station and that number.
pub call_device_task-accepted :
    (show : ℕ → String) (new_id site : ℕ) (start_handel : Option String) (db : Db)
    → select_by_flags_type open_flags "4" db ≡ []
    → has_task (add_and_get_user_task_id new_id db).0 db.user_tasks ≡ false
    → (db' : Db) × (call_device_task show new_id (some site) start_handel db ≡ ok (success, db'))
      × (t : UserTask) × (select_by_flags_type open_flags "4" db' ≡ t ∷ [])
      × (t.send_flag ≡ some "1")
      × (t.device_imei ≡ none)
      × (t.start_site_code ≡ some site)
      × (t.user_task_id ≡ (add_and_get_user_task_id new_id db).0)
unfolding call_device_task insert_task call_task add_and_get_user_task_id
call_device_task-accepted show new_id site start_handel db free fresh = (
  after,
  rw (call_device_task, free, insert_task, fresh) refl,
  call_task show (add_and_get_user_task_id new_id db).0 site start_handel,
  found,
  refl,
  refl,
  refl,
  refl,
)
  where
    after : Db
    after = record ((add_and_get_user_task_id new_id db).1) {
      user_tasks =
          db.user_tasks
          ++ call_task show (add_and_get_user_task_id new_id db).0 site start_handel ∷ [];
    }

    found :
        select_by_flags_type open_flags "4" after
        ≡ call_task show (add_and_get_user_task_id new_id db).0 site start_handel ∷ []
    found =
        unfold select_by_flags_type in
        (select-append is_open_call db.user_tasks
            (call_task show (add_and_get_user_task_id new_id db).0 site start_handel ∷ [])
          ∙ ap
              (λ l.
                l ++ call_task show (add_and_get_user_task_id new_id db).0 site start_handel ∷ [])
              (unfold select_by_flags_type in free))
