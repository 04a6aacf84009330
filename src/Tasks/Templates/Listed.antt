-- ===== src/Tasks/Templates/Listed.antt =====
-- What select_task_temp_info answers of a template that was written.
use ygvcs_py.Prelude.{
  ℕ, ◌≡◌, refl, sym, ap, ◌∙◌, Bool, true, some, List, [], ◌∷◌, ◌++◌, String, map, first, ==_refl,
  arith,
}
use mathlib.Core.List.{append-nil}
use mathlib.Core.Path.{subst}
use ygvcs_py.Store.Query.{select, select_one, delete, order_asc}
use ygvcs_py.Store.Query.Sorted.{select-kept}
use ygvcs_py.Store.Query.Rows.{select-append, select-delete}
use ygvcs_py.Store.Tables.{TaskTempDevice, TaskTempSite, TaskTempSpareSite, Db}
use ygvcs_py.Store.Repos.{null_first, select_by_template_type_ordered}
use ygvcs_py.Tasks.Templates.{
  TaskAddForm, Writing, of_template, site_of_template, device_of_template, without_template,
  kept_status, insert_sites, template_row, write_template, add_as, add_task_temp, del_task_temp,
  edit_task_temp_info, SiteInfo, TaskInfo, build_sites, select_task_temp_info,
}
use ygvcs_py.Tasks.Templates.Written.{
  SiteRows, insert_sites-Added, of_type, select-SiteRows, select_other-SiteRows, order-SiteRows,
  asked, stands, stands-SiteRows, insert_devices-rows,
}

-- What a form wrote: the rows by table.
record Wrote (id : ℕ) (status : String) (form : TaskAddForm) (w w' : Writing) : Type 0 where
  starts : List TaskTempSite
  ends : List TaskTempSite
  vehicles : List TaskTempDevice
  start_rows : SiteRows id "1" 0 form.start_sites starts
  end_rows : SiteRows id "2" 0 form.end_sites ends
  imeis : map (λ (d : TaskTempDevice). d.device_imei) vehicles ≡ form.devices
  own : select (device_of_template id) vehicles ≡ vehicles
  templates : w'.db.templates ≡ w.db.templates ++ template_row id status form ∷ []
  sites : w'.db.temp_sites ≡ (w.db.temp_sites ++ starts) ++ ends
  devices : w'.db.temp_devices ≡ w.db.temp_devices ++ vehicles

write_template-Wrote :
    (ids : ℕ → ℕ) (id : ℕ) (status : String) (form : TaskAddForm) (w : Writing)
    → Wrote id status form w (write_template ids id status form w)
unfolding write_template
write_template-Wrote ids id status form w =
    let w1 : Writing = record w {
      db = record (w.db) { templates = w.db.templates ++ template_row id status form ∷ [] };
    } in
    let w2 = insert_sites ids id "1" 0 form.start_sites w1 in
    let w3 = insert_sites ids id "2" 0 form.end_sites w2 in
    let (starts, start_rows, added) = insert_sites-Added ids id "1" 0 form.start_sites w1 in
    let (ends, end_rows, added') = insert_sites-Added ids id "2" 0 form.end_sites w2 in
    let (same, same', (vehicles, devices, imeis, own)) =
      insert_devices-rows ids id form.devices w3 in
    record {
      starts = starts;
      ends = ends;
      vehicles = vehicles;
      start_rows = start_rows;
      end_rows = end_rows;
      imeis = imeis;
      own = own;
      templates = same' ∙ added'.templates ∙ added.templates;
      sites = same ∙ added'.sites ∙ ap (λ l. l ++ ends) added.sites;
      devices = devices ∙ ap (λ l. l ++ vehicles) (added'.devices ∙ added.devices);
    }

-- The answer is the form: its name, its sites in their order, its vehicles.
pub record Shows (id : ℕ) (status : String) (form : TaskAddForm) (info : TaskInfo) : Type 0 where
  pub task : info.task ≡ template_row id status form
  pub start_sites :
      map (λ (i : SiteInfo). stands i.site) info.start_sites ≡ map asked form.start_sites
  pub end_sites : map (λ (i : SiteInfo). stands i.site) info.end_sites ≡ map asked form.end_sites
  pub devices : map (λ (d : TaskTempDevice). d.device_imei) info.devices ≡ form.devices

-- A table without the template's rows, and then new rows of it: a query finds the new rows.
select_after_delete :
    {A : Type 0} (p q : A → Bool) (rows new : List A)
    → ((x : A) → p x ≡ true → q x ≡ true)
    → select p (delete q rows ++ new) ≡ select p new
select_after_delete p q rows new under =
    select-append p (delete q rows) new ∙ ap (λ l. l ++ select p new) (select-delete p q rows under)

of_type-site :
    (id : ℕ) (type : String) (s : TaskTempSite)
    → of_type id type s ≡ true
    → site_of_template id s ≡ true
of_type-site id type s h = ground arith

-- The sites of a type that the answer lists.
build_sites-stands :
    (id : ℕ) (type : String) (db : Db) (rows : List TaskTempSite)
    → order_asc (λ s. null_first s.order_index) (select (of_type id type) db.temp_sites) ≡ rows
    → map (λ (i : SiteInfo). stands i.site) (build_sites id type db) ≡ map stands rows
unfolding build_sites select_by_template_type_ordered
build_sites-stands id type db rows e = each _ _ ∙ ap (map stands) e
  where
    each :
        (f : TaskTempSite → List TaskTempSpareSite) (l : List TaskTempSite)
        → map
            (λ (i : SiteInfo). stands i.site)
            (map (λ (s : TaskTempSite). record { site = s; standby_list = f s }) l)
          ≡ map stands l
    each f [] = refl
    each f (s ∷ l) = ap (λ m. stands s ∷ m) (each f l)

-- After the template's rows were deleted and a form was written, the answer is the form.
Shows-Wrote :
    (id : ℕ) (status : String) (form : TaskAddForm) (db : Db) (w w' : Writing)
    → w.db ≡ without_template id db
    → Wrote id status form w w'
    → (info : TaskInfo) × (select_task_temp_info id w'.db ≡ some info) × Shows id status form info
unfolding without_template select_task_temp_info select_one
Shows-Wrote id status form db w w' start wrote = (
  record {
    task = template_row id status form;
    start_sites = build_sites id "1" w'.db;
    end_sites = build_sites id "2" w'.db;
    devices = select (device_of_template id) w'.db.temp_devices;
  },
  rw (select_task_temp_info, found) refl,
  record {
    task = refl;
    start_sites =
        build_sites-stands id "1" w'.db wrote.starts (
          ap (order_asc _) starts
          ∙ order-SiteRows id "1" 0 form.start_sites wrote.starts wrote.start_rows)
        ∙ stands-SiteRows id "1" 0 form.start_sites wrote.starts wrote.start_rows;
    end_sites =
        build_sites-stands id "2" w'.db wrote.ends
          (ap (order_asc _) ends ∙ order-SiteRows id "2" 0 form.end_sites wrote.ends wrote.end_rows)
        ∙ stands-SiteRows id "2" 0 form.end_sites wrote.ends wrote.end_rows;
    devices = ap (map (λ (d : TaskTempDevice). d.device_imei)) vehicles ∙ wrote.imeis;
  },
)
  where
    found : select (of_template id) w'.db.templates ≡ template_row id status form ∷ []
    found =
        rw (wrote.templates, start)
          (select_after_delete (of_template id) (of_template id) db.templates
              (template_row id status form ∷ []) (λ x t. t)
            ∙ select-kept (of_template id) (template_row id status form) [] (==_refl id)
            ∙ ap (λ l. template_row id status form ∷ l) (unfold select in refl))

    sites_found :
        (type : String)
        → select (of_type id type) w'.db.temp_sites
          ≡ select (of_type id type) wrote.starts ++ select (of_type id type) wrote.ends
    sites_found type =
        rw (wrote.sites, start)
          (select-append (of_type id type)
              (delete (site_of_template id) db.temp_sites ++ wrote.starts) wrote.ends
            ∙ ap (λ l. l ++ select (of_type id type) wrote.ends)
                (select_after_delete (of_type id type) (site_of_template id) db.temp_sites
                  wrote.starts (of_type-site id type)))

    starts : select (of_type id "1") w'.db.temp_sites ≡ wrote.starts
    starts =
        rw
          (
            sites_found "1",
            select-SiteRows id "1" 0 form.start_sites wrote.starts wrote.start_rows,
            select_other-SiteRows id "2" "1" 0 form.end_sites wrote.ends refl wrote.end_rows,
          )
          (append-nil wrote.starts)

    ends : select (of_type id "2") w'.db.temp_sites ≡ wrote.ends
    ends =
        rw
          (
            sites_found "2",
            select_other-SiteRows id "1" "2" 0 form.start_sites wrote.starts refl wrote.start_rows,
            select-SiteRows id "2" 0 form.end_sites wrote.ends wrote.end_rows,
          )
          refl

    vehicles : select (device_of_template id) w'.db.temp_devices ≡ wrote.vehicles
    vehicles =
        rw (wrote.devices, start)
          (select_after_delete (device_of_template id) (device_of_template id) db.temp_devices
              wrote.vehicles (λ x t. t)
            ∙ wrote.own)

-- Where a form names its template, the template's rows are replaced: asked for the template, the
-- service then answers the form's name, sites and vehicles in the form's order, and the run status
-- that the template had, "1" where it had none.
pub select_task_temp_info-add_task_temp :
    (ids : ℕ → ℕ) (id : ℕ) (form : TaskAddForm) (db : Db)
    → form.task_template_id ≡ some id
    → let status = kept_status (select_one (of_template id) db.templates) in
      (info : TaskInfo) × (select_task_temp_info id (add_task_temp ids form db).1 ≡ some info)
      × Shows id status form info
unfolding add_task_temp
select_task_temp_info-add_task_temp ids id form db named =
    let status = kept_status (select_one (of_template id) db.templates) in
    let w : Writing = record { drawn = 0; db = without_template id db } in
    subst
      (λ o.
        (info : TaskInfo) × (select_task_temp_info id (add_as ids o form db) ≡ some info)
        × Shows id status form info)
      (sym named)
      (Shows-Wrote id status form db w _ refl (write_template-Wrote ids id status form w))

-- A template that is edited as a whole is listed as the form says, and its run status is "1"
-- (not running), whatever it was: the old row is gone before its status is looked up.
pub select_task_temp_info-edit_task_temp_info :
    (ids : ℕ → ℕ) (id : ℕ) (form : TaskAddForm) (db : Db)
    → (info : TaskInfo) × (select_task_temp_info id (edit_task_temp_info ids id form db).1
        ≡ some info)
      × Shows id "1" (record form { task_template_id = some id }) info
unfolding edit_task_temp_info del_task_temp add_task_temp without_template select_one
select_task_temp_info-edit_task_temp_info ids id form db =
    subst
      (λ status.
        (info : TaskInfo) × (select_task_temp_info id (edit_task_temp_info ids id form db).1
          ≡ some info)
        × Shows id status own info)
      (ap (λ l. kept_status (first l)) gone)
      (select_task_temp_info-add_task_temp ids id own (without_template id db) refl)
  where
    own : TaskAddForm
    own = record form { task_template_id = some id }

    gone : select (of_template id) (delete (of_template id) db.templates) ≡ []
    gone = select-delete (of_template id) (of_template id) db.templates (λ x t. t)
