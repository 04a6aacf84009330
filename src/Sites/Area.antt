-- ===== src/Sites/Area.antt =====
-- edit_area_status of app/services/storage.py: a task for each free place of a template's side. Each
-- task is a transaction of its own. The model ends, with `none`, at a template with a site that has no
-- code: the code then asks for places and tasks without that limit.
pub mod Visits
pub mod Filled
use ygvcs_py.Prelude.{
  ℕ, suc, Bool, true, false, not, ◌||◌, Option, none, some, List, [], ◌∷◌, String, if◌then◌else◌,
  str_eq, ◌==◌,
}
use ygvcs_py.Prelude.Raises.{Raises, ok, raised}
use ygvcs_py.Store.Query.{is_text, select_one}
use ygvcs_py.Store.Repos.{select_by_template_type_ordered}
use ygvcs_py.Store.Tables.{Storage, TaskTempSite, TaskTemplate, Db}
use ygvcs_py.Tasks.Reply.{notice, success, fail}
use ygvcs_py.Tasks.Create.{Imei, written, TaskCreateForm, Created, create_task}
use ygvcs_py.Sites.{SiteRun, answered, get_storage_by_code}

abbrev pub is_open : Storage → Bool
is_open r = not (is_text r.is_enable "1" || is_text r.site_status "2" || is_text r.site_status "3")

unfoldable pub open_place : ℕ → Db → Bool
unfolding get_storage_by_code
open_place code db = elim (get_storage_by_code code db) [ none ↦ false | some r ↦ is_open r ]

abbrev pub fill_form : String → ℕ → TaskCreateForm
fill_form code_act code = record {
  device_imei = written "0";
  code = code;
  code_act = some code_act;
  device_type = some "0";
}

-- The outcome of a task is not looked at.
abbrev pub filled : Db → Created → SiteRun
filled db c = elim c.result [
  | raised ↦ record { result = raised; db = db; busy = c.busy }
  | ok (o, db') ↦ answered success db' c.busy
]

-- `ids` draws the two numbers of a new task.
module _ (show : ℕ → String) (ids : ℕ → ℕ × ℕ) (code_act : String) where
  unfoldable pub fill_place : ℕ → ℕ → List Imei → Db → SiteRun
  unfolding open_place create_task
  fill_place drawn code busy db =
      if open_place code db
      then filled db
          (create_task show (ids drawn).0 (ids drawn).1 (fill_form code_act code) busy db)
      else answered success db busy

  -- The codes of the template's sites in turn.
  unfoldable pub fill_sites : ℕ → List ℕ → List Imei → Db → SiteRun
  unfolding fill_place
  fill_sites drawn [] busy db = answered success db busy
  fill_sites drawn (code ∷ codes) busy db =
      let run = fill_place drawn code busy db in
      let rest = fill_sites (suc drawn) codes run.busy run.db in
      elim run.result [ raised ↦ run | ok r ↦ rest ]

abbrev pub put_first : ℕ → Option (List ℕ) → Option (List ℕ)
put_first code none = none
put_first code (some codes) = some (code ∷ codes)

abbrev pub code_then : Option ℕ → Option (List ℕ) → Option (List ℕ)
code_then none codes = none
code_then (some code) codes = put_first code codes

-- The codes of the sites, where all have one.
unfoldable pub codes_of : List TaskTempSite → Option (List ℕ)
codes_of [] = some []
codes_of (ts ∷ sites) = code_then ts.site_code (codes_of sites)

abbrev pub run_codes : (List ℕ → SiteRun) → Option (List ℕ) → Option SiteRun
run_codes run none = none
run_codes run (some codes) = some (run codes)

pub record AreaStatusEditForm : Type 0 where
  pub task_template_id : ℕ
  pub site_status : String
  pub type : String

abbrev pub area_act : String → String
area_act site_status = if str_eq site_status "0" then "1" else "2"

abbrev pub no_template : Db → List Imei → SiteRun
no_template db busy = answered (fail "1" (notice "TaskService.editTaskTemp.noTaskTemp")) db busy

unfoldable pub edit_area_status :
    (ℕ → String) → (ℕ → ℕ × ℕ) → AreaStatusEditForm → List Imei → Db → Option SiteRun
unfolding fill_sites codes_of select_by_template_type_ordered select_one
edit_area_status show ids form busy db =
    elim (select_one (λ t. t.task_template_id == form.task_template_id) db.templates) [
      | none ↦ some (no_template db busy)
      | some t ↦
          if is_text t.run_status "1"
          then some (no_template db busy)
          else run_codes (λ codes. fill_sites show ids (area_act form.site_status) 0 codes busy db)
              (codes_of (select_by_template_type_ordered form.task_template_id form.type db))
    ]
