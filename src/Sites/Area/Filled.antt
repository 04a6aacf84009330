-- ===== src/Sites/Area/Filled.antt =====
-- How setting the status of an area ends, and what tasks it adds.
use ygvcs_py.Prelude.{ℕ, ◌≡◌, true, false, none, some, List, [], ◌∷◌, ◌++◌, String, ◌==◌, All, map}
use ygvcs_py.Prelude.Raises.{Raises, ok}
use ygvcs_py.Store.Query.{is_text, select_one}
use ygvcs_py.Store.Repos.{select_by_template_type_ordered}
use ygvcs_py.Store.Tables.{TaskTempSite, TaskTemplate, UserTask, Db}
use ygvcs_py.Tasks.Reply.{Notice, JsonResult, fail}
use ygvcs_py.Tasks.Create.{Imei}
use ygvcs_py.Sites.{SiteRun}
use ygvcs_py.Sites.Area.{AreaStatusEditForm, area_act, edit_area_status}
use ygvcs_py.Sites.Area.Visits.{Filled}

-- The tasks that `db'` has after those of `db`, all of which wait.
pub record Appended (db db' : Db) : Type 0 where
  pub added : List UserTask
  pub queue : db'.user_tasks ≡ db.user_tasks ++ added
  pub wait : All (λ t. t.send_flag ≡ some "1") added

-- How the status of an area ends.
pub data AreaEnds (show : ℕ → String) (form : AreaStatusEditForm) (db : Db)
    : Raises JsonResult → Db → Type 0 where
  no_row :
      {n : Notice}
      → select_one (λ t. t.task_template_id == form.task_template_id) db.templates ≡ none
      → AreaEnds show form db (ok (fail "1" n)) db
  not_running :
      {n : Notice} (t : TaskTemplate)
      → select_one (λ t. t.task_template_id == form.task_template_id) db.templates ≡ some t
      → is_text t.run_status "1" ≡ true
      → AreaEnds show form db (ok (fail "1" n)) db
  area_filled :
      {r : Raises JsonResult} {db' : Db} (t : TaskTemplate) (codes : List ℕ)
      → select_one (λ t. t.task_template_id == form.task_template_id) db.templates ≡ some t
      → is_text t.run_status "1" ≡ false
      → map
          (λ (ts : TaskTempSite). ts.site_code)
          (select_by_template_type_ordered form.task_template_id form.type db)
        ≡ map some codes
      → Filled show (area_act form.site_status) codes db r db'
      → AreaEnds show form db r db'

abbrev head_or : {A : Type 0} → A → List A → A
head_or d [] = d
head_or d (x ∷ xs) = x

abbrev tail_of : {A : Type 0} → List A → List A
tail_of [] = []
tail_of (x ∷ xs) = xs

module _ (show : ℕ → String) (ids : ℕ → ℕ × ℕ) (form : AreaStatusEditForm) (busy : List Imei)
    (db : Db) where
  abbrev AreaRun : Type 0
  AreaRun =
      (run : SiteRun) × (edit_area_status show ids form busy db ≡ some run)
      × AreaEnds show form db run.result run.db
