-- ===== src/Tasks/Templates/Written.antt =====
-- Which rows `_insert_sites` and the loop over the vehicles add.
use ygvcs_py.Prelude.{
  ℕ, suc, ◌+◌, ◌≡◌, refl, sym, ap, ◌∙◌, Bool, false, ◌&&◌, Option, some, List, [], ◌∷◌, ◌++◌,
  String, map, leb, arith, str_eq, ==_refl,
}
use mathlib.Core.List.{append_assoc, append-nil}
use text.Mathlib.TextPositions.{eq_refl}
use ygvcs_py.Store.Query.{is_text, select, insert_by, order_asc, order_by}
use ygvcs_py.Store.Query.Sorted.{select-kept, select-cut}
use ygvcs_py.Store.Tables.{TaskTempDevice, TaskTempSite}
use ygvcs_py.Store.Repos.{null_first}
use ygvcs_py.Tasks.Templates.{
  StandbyForm, SiteForm, Writing, site_of_template, device_of_template, site_row, device_row,
  insert_standby, insert_site, insert_sites, insert_devices,
}

-- A row stands for a site of a form.
pub record IsSiteRow (template : ℕ) (type : String) (i : ℕ) (site : SiteForm) (row : TaskTempSite)
    : Type 0 where
  pub of : row.task_template_id ≡ some template
  pub typed : row.site_type ≡ some type
  pub ordered : row.order_index ≡ some (i + 1)
  pub coded : row.site_code ≡ some site.site_code
  pub named : row.site_name ≡ site.storage_name

-- The rows stand for the sites of a form in their order, numbered upwards.
abbrev pub SiteRows : ℕ → String → ℕ → List SiteForm → List TaskTempSite → Type 0
SiteRows template type i [] [] = Unit
SiteRows template type i [] (row ∷ rows) = ⊥
SiteRows template type i (site ∷ sites) [] = ⊥
SiteRows template type i (site ∷ sites) (row ∷ rows) =
    IsSiteRow template type i site row × SiteRows template type (suc i) sites rows

-- What a loop leaves alone, and what it adds to the table of sites.
pub record Added (w w' : Writing) (rows : List TaskTempSite) : Type 0 where
  pub sites : w'.db.temp_sites ≡ w.db.temp_sites ++ rows
  pub templates : w'.db.templates ≡ w.db.templates
  pub devices : w'.db.temp_devices ≡ w.db.temp_devices

Added-trans :
    (w w' w'' : Writing) (rows rows' : List TaskTempSite)
    → Added w w' rows
    → Added w' w'' rows'
    → Added w w'' (rows ++ rows')
Added-trans w w' w'' rows rows' a b = record {
  sites = b.sites ∙ ap (λ l. l ++ rows') a.sites ∙ append_assoc w.db.temp_sites rows rows';
  templates = b.templates ∙ a.templates;
  devices = b.devices ∙ a.devices;
}

insert_standby-Added :
    (ids : ℕ → ℕ) (template : ℕ) (type : String) (site : SiteForm) (sbs : List StandbyForm)
    (w : Writing)
    → let w' = insert_standby ids template type site sbs w in
      (w'.db.temp_sites ≡ w.db.temp_sites)
      × (w'.db.templates ≡ w.db.templates)
      × (w'.db.temp_devices ≡ w.db.temp_devices)
unfolding insert_standby
insert_standby-Added ids template type site [] w = (refl, refl, refl)
insert_standby-Added ids template type site (sb ∷ sbs) w =
    insert_standby-Added ids template type site sbs _

pub insert_sites-Added :
    (ids : ℕ → ℕ) (template : ℕ) (type : String) (i : ℕ) (sites : List SiteForm) (w : Writing)
    → (rows : List TaskTempSite) × SiteRows template type i sites rows
      × Added w (insert_sites ids template type i sites w) rows
unfolding insert_sites insert_site
insert_sites-Added ids template type i [] w =
    ([], tt, record { sites = sym (append-nil w.db.temp_sites); templates = refl; devices = refl })
insert_sites-Added ids template type i (site ∷ sites) w =
    let row = site_row (ids w.drawn) template type (i + 1) site in
    let w1 : Writing = record {
      drawn = suc w.drawn;
      db = record (w.db) { temp_sites = w.db.temp_sites ++ row ∷ [] };
    } in
    let (same, same', same'') = insert_standby-Added ids template type site site.standby_list w1 in
    let (rows, given, later) =
      insert_sites-Added ids template type (suc i) sites
        (insert_standby ids template type site site.standby_list w1) in
    (
      row ∷ rows,
      (record { of = refl; typed = refl; ordered = refl; coded = refl; named = refl }, given),
      Added-trans w _ _ (row ∷ []) rows
          (record { sites = same; templates = same'; devices = same'' }) later,
    )

abbrev pub of_type : ℕ → String → TaskTempSite → Bool
of_type template type s = site_of_template template s && is_text s.site_type type

-- The rows of one type are what a query of that type finds; of another type it finds none.
pub select-SiteRows :
    (template : ℕ) (type : String) (i : ℕ) (sites : List SiteForm) (rows : List TaskTempSite)
    → SiteRows template type i sites rows
    → select (of_type template type) rows ≡ rows
select-SiteRows template type i [] [] h = unfold select in refl
select-SiteRows template type i [] (row ∷ rows) h = absurd h
select-SiteRows template type i (site ∷ sites) [] h = absurd h
select-SiteRows template type i (site ∷ sites) (row ∷ rows) (r, later) =
    select-kept _ row rows (rw (r.of, r.typed) (rw (==_refl template, eq_refl type) refl))
    ∙ ap (λ l. row ∷ l) (select-SiteRows template type (suc i) sites rows later)

pub select_other-SiteRows :
    (template : ℕ) (type type' : String) (i : ℕ) (sites : List SiteForm) (rows : List TaskTempSite)
    → str_eq type type' ≡ false
    → SiteRows template type i sites rows
    → select (of_type template type') rows ≡ []
select_other-SiteRows template type type' i [] [] other h = unfold select in refl
select_other-SiteRows template type type' i [] (row ∷ rows) other h = absurd h
select_other-SiteRows template type type' i (site ∷ sites) [] other h = absurd h
select_other-SiteRows template type type' i (site ∷ sites) (row ∷ rows) other (r, later) =
    select-cut _ row rows (rw (r.of, r.typed) (rw (==_refl template, other) refl))
    ∙ select_other-SiteRows template type type' (suc i) sites rows other later

-- Rows in the order of their numbers stay as they are when they are ordered.
insert-SiteRows :
    (template : ℕ) (type : String) (i : ℕ) (sites : List SiteForm) (row : TaskTempSite)
    (rows : List TaskTempSite)
    → row.order_index ≡ some (i + 1)
    → SiteRows template type (suc i) sites rows
    → insert_by
        (λ (x y : TaskTempSite). leb (null_first x.order_index) (null_first y.order_index))
        row
        rows
      ≡ row ∷ rows
unfolding insert_by
insert-SiteRows template type i [] row [] e h = refl
insert-SiteRows template type i [] row (r ∷ rows) e h = absurd h
insert-SiteRows template type i (site ∷ sites) row [] e h = absurd h
insert-SiteRows template type i (site ∷ sites) row (r ∷ rows) e (here, later) =
    rw (e, here.ordered) (ground arith)

pub order-SiteRows :
    (template : ℕ) (type : String) (i : ℕ) (sites : List SiteForm) (rows : List TaskTempSite)
    → SiteRows template type i sites rows
    → order_asc (λ s. null_first s.order_index) rows ≡ rows
unfolding order_asc order_by
order-SiteRows template type i [] [] h = refl
order-SiteRows template type i [] (row ∷ rows) h = absurd h
order-SiteRows template type i (site ∷ sites) [] h = absurd h
order-SiteRows template type i (site ∷ sites) (row ∷ rows) (r, later) =
    rw (order-SiteRows template type (suc i) sites rows later)
      (insert-SiteRows template type i sites row rows r.ordered later)

-- What a form says of a site, and what a row says.
abbrev pub asked : SiteForm → Option ℕ × Option String
asked site = (some site.site_code, site.storage_name)

abbrev pub stands : TaskTempSite → Option ℕ × Option String
stands row = (row.site_code, row.site_name)

pub stands-SiteRows :
    (template : ℕ) (type : String) (i : ℕ) (sites : List SiteForm) (rows : List TaskTempSite)
    → SiteRows template type i sites rows
    → map stands rows ≡ map asked sites
stands-SiteRows template type i [] [] h = refl
stands-SiteRows template type i [] (row ∷ rows) h = absurd h
stands-SiteRows template type i (site ∷ sites) [] h = absurd h
stands-SiteRows template type i (site ∷ sites) (row ∷ rows) (r, later) =
    rw (r.coded, r.named, stands-SiteRows template type (suc i) sites rows later) refl

pub insert_devices-rows :
    (ids : ℕ → ℕ) (template : ℕ) (imeis : List (Option ℕ)) (w : Writing)
    → let w' = insert_devices ids template imeis w in
      (w'.db.temp_sites ≡ w.db.temp_sites)
      × (w'.db.templates ≡ w.db.templates)
      × ((rows : List TaskTempDevice) × (w'.db.temp_devices ≡ w.db.temp_devices ++ rows)
          × (map (λ (d : TaskTempDevice). d.device_imei) rows ≡ imeis)
          × (select (device_of_template template) rows ≡ rows))
unfolding insert_devices
insert_devices-rows ids template [] w =
    (refl, refl, ([], sym (append-nil w.db.temp_devices), refl, unfold select in refl))
insert_devices-rows ids template (imei ∷ imeis) w =
    let row = device_row (ids w.drawn) template imei in
    let (same, same', (rows, added, listed, found)) =
      insert_devices-rows ids template imeis (record {
        drawn = suc w.drawn;
        db = record (w.db) { temp_devices = w.db.temp_devices ++ row ∷ [] };
      }) in
    (
      same,
      same',
      (
        row ∷ rows,
        added ∙ append_assoc w.db.temp_devices (row ∷ []) rows,
        ap (λ l. imei ∷ l) listed,
        select-kept (device_of_template template) row rows (==_refl template)
            ∙ ap (λ l. row ∷ l) found,
      ),
    )
