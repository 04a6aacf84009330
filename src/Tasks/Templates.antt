-- ===== src/Tasks/Templates.antt =====
-- app/services/task.py: the task templates, with their sites, spare sites and vehicles. A call is
-- one transaction. The forms have their template's number where their check asks for one, and an
-- absent list of theirs is `[]`. `ids` gives the ids of `next_id_long` by their order; an id that
-- a key has already, which the database would refuse, is left out. The rows that the forms list as
-- spare sites are read one level deep, as the code does.
pub mod Written
pub mod Listed
pub mod Running
use ygvcs_py.Prelude.{
  ℕ, suc, ◌+◌, Bool, true, false, ◌&&◌, Option, none, some, List, [], ◌∷◌, ◌++◌, String, ◌==◌, map,
}
use ygvcs_py.Store.Query.{is_text, is_number, select, select_one, update_by_example, delete}
use ygvcs_py.Store.Tables.{TaskTempDevice, TaskTempSite, TaskTempSpareSite, TaskTemplate, Db}
use ygvcs_py.Store.Repos.{is_code, select_by_template_type_ordered, select_run_task_temp_by_site}
use ygvcs_py.Tasks.Reply.{JsonResult, success, fail, notice, conflict_notice}

pub record StandbyForm : Type 0 where
  pub site_code : ℕ
  pub storage_name : Option String
  pub order_no : Option ℕ

pub record SiteForm : Type 0 where
  pub site_code : ℕ
  pub storage_name : Option String
  pub standby_list : List StandbyForm

pub record TaskAddForm : Type 0 where
  pub task_name : Option String
  pub start_sites : List SiteForm
  pub end_sites : List SiteForm
  pub devices : List (Option ℕ)
  pub task_template_id : Option ℕ

pub record TaskEditForm : Type 0 where
  pub task_template_id : ℕ
  pub run_status : Option String

-- The tables while a form is written to them, with the count of ids drawn.
pub record Writing : Type 0 where
  pub drawn : ℕ
  pub db : Db

abbrev pub of_template : ℕ → TaskTemplate → Bool
of_template id t = t.task_template_id == id

abbrev pub site_of_template : ℕ → TaskTempSite → Bool
site_of_template id s = is_number s.task_template_id id

abbrev pub device_of_template : ℕ → TaskTempDevice → Bool
device_of_template id d = is_number d.task_template_id id

abbrev pub spare_of_template : ℕ → TaskTempSpareSite → Bool
spare_of_template id s = is_number s.task_template_id id

-- `delete_by_pk` of the template and `delete` of what belongs to it
unfoldable pub without_template : ℕ → Db → Db
unfolding delete
without_template id db = record db {
  templates = delete (of_template id) db.templates;
  temp_sites = delete (site_of_template id) db.temp_sites;
  temp_devices = delete (device_of_template id) db.temp_devices;
  spare_sites = delete (spare_of_template id) db.spare_sites;
}

-- `existing is not None and existing.run_status`
abbrev pub status_or : Option String → String
status_or none = "1"
status_or (some String.[]) = "1"
status_or (some (String.◌∷◌ c s)) = String.◌∷◌ c s

abbrev pub kept_status : Option TaskTemplate → String
kept_status none = "1"
kept_status (some t) = status_or t.run_status

abbrev pub spare_row : ℕ → ℕ → String → SiteForm → StandbyForm → TaskTempSpareSite
spare_row id template type site sb = record {
  task_temp_spare_site_id = id;
  task_template_id = some template;
  site_type = some type;
  main_site_code = some site.site_code;
  main_site_name = site.storage_name;
  site_code = some sb.site_code;
  site_name = sb.storage_name;
  order_index = sb.order_no;
}

abbrev pub site_row : ℕ → ℕ → String → ℕ → SiteForm → TaskTempSite
site_row id template type index site = record {
  task_temp_site_id = id;
  site_type = some type;
  site_code = some site.site_code;
  site_name = site.storage_name;
  task_template_id = some template;
  order_index = some index;
}

abbrev pub device_row : ℕ → ℕ → Option ℕ → TaskTempDevice
device_row id template imei = record {
  task_temp_device_id = id;
  device_imei = imei;
  task_template_id = some template;
}

abbrev pub template_row : ℕ → String → TaskAddForm → TaskTemplate
template_row template status form = record {
  task_template_id = template;
  template_name = form.task_name;
  run_status = some status;
}

module _ (ids : ℕ → ℕ) where
  unfoldable pub insert_standby : ℕ → String → SiteForm → List StandbyForm → Writing → Writing
  insert_standby template type site [] w = w
  insert_standby template type site (sb ∷ sbs) w =
      let spare = spare_row (ids w.drawn) template type site sb in
      insert_standby template type site sbs (record {
        drawn = suc w.drawn;
        db = record (w.db) { spare_sites = w.db.spare_sites ++ spare ∷ [] };
      })

  -- One turn of the loop of `_insert_sites`, `index` being `i + 1`.
  unfoldable pub insert_site : ℕ → String → ℕ → SiteForm → Writing → Writing
  unfolding insert_standby
  insert_site template type index site w =
      let row = site_row (ids w.drawn) template type index site in
      insert_standby template type site site.standby_list (record {
        drawn = suc w.drawn;
        db = record (w.db) { temp_sites = w.db.temp_sites ++ row ∷ [] };
      })

  unfoldable pub insert_sites : ℕ → String → ℕ → List SiteForm → Writing → Writing
  unfolding insert_site
  insert_sites template type i [] w = w
  insert_sites template type i (site ∷ sites) w =
      insert_sites template type (suc i) sites (insert_site template type (i + 1) site w)

  unfoldable pub insert_devices : ℕ → List (Option ℕ) → Writing → Writing
  insert_devices template [] w = w
  insert_devices template (imei ∷ imeis) w =
      let row = device_row (ids w.drawn) template imei in
      insert_devices template imeis (record {
        drawn = suc w.drawn;
        db = record (w.db) { temp_devices = w.db.temp_devices ++ row ∷ [] };
      })

  -- The part of `add_task_temp` after the template's number and status are settled.
  unfoldable pub write_template : ℕ → String → TaskAddForm → Writing → Writing
  unfolding insert_sites insert_devices
  write_template template status form w =
      let row = template_row template status form in
      let w1 = record w { db = record (w.db) { templates = w.db.templates ++ row ∷ [] } } in
      let w2 = insert_sites template "1" 0 form.start_sites w1 in
      let w3 = insert_sites template "2" 0 form.end_sites w2 in
      insert_devices template form.devices w3

  abbrev pub add_as : Option ℕ → TaskAddForm → Db → Db
  add_as none form db = (write_template (ids 0) "1" form (record { drawn = 1; db = db })).db
  add_as (some id) form db =
      let status = kept_status (select_one (of_template id) db.templates) in
      (write_template id status form (record { drawn = 0; db = without_template id db })).db

  unfoldable pub add_task_temp : TaskAddForm → Db → JsonResult × Db
  unfolding write_template without_template
  add_task_temp form db = (success, add_as form.task_template_id form db)

-- The loop over the sites of one type: the first that a running template has already.
unfoldable pub first_conflict : ℕ → String → List TaskTempSite → Db → Option JsonResult
first_conflict id type [] db = none
first_conflict id type (s ∷ sites) db =
    let rest = first_conflict id type sites db in
    elim (select_run_task_temp_by_site s.site_code type (some id) db) [
      | [] ↦ rest
      | t ∷ _ ↦ some (
          fail "1"
            (conflict_notice s.site_code t.template_name "TaskService.editTaskTemp.SiteExitAnTask"))
    ]

abbrev pub sites_of : ℕ → String → Db → List TaskTempSite
sites_of id type db = select (λ s. site_of_template id s && is_text s.site_type type) db.temp_sites

abbrev pub or_else : Option JsonResult → Option JsonResult → Option JsonResult
or_else none b = b
or_else (some r) b = some r

unfoldable pub conflict : TaskEditForm → Db → Option JsonResult
unfolding first_conflict
conflict form db =
    let id = form.task_template_id in
    elim (is_text form.run_status "0") [
      | false ↦ none
      | true ↦
          or_else (first_conflict id "1" (sites_of id "1" db) db)
            (first_conflict id "2" (sites_of id "2" db) db)
    ]

unfoldable pub save_template : TaskTemplate → Db → Db
unfolding update_by_example
save_template t db = record db {
  templates = update_by_example (λ _. t) (of_template t.task_template_id) db.templates;
}

abbrev pub no_task : JsonResult
no_task = fail "1" (notice "TaskService.editTaskTemp.TaskNotExit")

-- The part of `edit_task_temp` from the check of the sites on.
abbrev pub set_status : TaskTemplate → TaskEditForm → Db → Option JsonResult → JsonResult × Db
set_status t form db (some refusal) = (refusal, db)
set_status t form db none = (success, save_template (record t { run_status = form.run_status }) db)

abbrev pub edit_template : TaskEditForm → Db → Option TaskTemplate → JsonResult × Db
edit_template form db none = (no_task, db)
edit_template form db (some t) = set_status t form db (conflict form db)

unfoldable pub edit_task_temp : TaskEditForm → Db → JsonResult × Db
unfolding conflict save_template
edit_task_temp form db =
    edit_template form db (select_one (of_template form.task_template_id) db.templates)

unfoldable pub del_task_temp : ℕ → Db → JsonResult × Db
unfolding without_template
del_task_temp id db = (success, without_template id db)

-- The form has a template's number, which its check asks for.
unfoldable pub edit_task_temp_info : (ℕ → ℕ) → ℕ → TaskAddForm → Db → JsonResult × Db
unfolding del_task_temp add_task_temp
edit_task_temp_info ids id form db =
    let (_, db') = del_task_temp id db in
    add_task_temp ids (record form { task_template_id = some id }) db'

-- A site with the spare sites that its type and number have.
pub record SiteInfo : Type 0 where
  pub site : TaskTempSite
  pub standby_list : List TaskTempSpareSite

pub record TaskInfo : Type 0 where
  pub task : TaskTemplate
  pub start_sites : List SiteInfo
  pub end_sites : List SiteInfo
  pub devices : List TaskTempDevice

unfoldable pub build_sites : ℕ → String → Db → List SiteInfo
unfolding select select_by_template_type_ordered
build_sites id type db =
    let spares = select (spare_of_template id) db.spare_sites in
    map
      (λ (s : TaskTempSite). record {
        site = s;
        standby_list =
            select (λ sp. is_text sp.site_type type && is_code sp.main_site_code s.site_code)
              spares;
      })
      (select_by_template_type_ordered id type db)

-- `none` is the refusal of a template that is not there.
unfoldable pub select_task_temp_info : ℕ → Db → Option TaskInfo
unfolding build_sites select_one select
select_task_temp_info id db = elim (select_one (of_template id) db.templates) [
  | none ↦ none
  | some t ↦ some (record {
    task = t;
    start_sites = build_sites id "1" db;
    end_sites = build_sites id "2" db;
    devices = select (device_of_template id) db.temp_devices;
  })
]
