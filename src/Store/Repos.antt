-- ===== src/Store/Repos.antt =====
-- app/repositories: the queries by name. A join is the list of the pairs of rows that match.
pub mod Joined
use ygvcs_py.Prelude.{
  ℕ, zero, suc, Bool, true, false, not, ◌&&◌, ◌||◌, Option, none, some, List, [], ◌∷◌, ◌++◌, String,
  ◌==◌, if◌then◌else◌, filter_by, first, str_eq, map,
}
use ygvcs_py.Store.Query.{
  is_text, is_number, select, select_one, update_by_example, order_asc, order_desc,
}
use ygvcs_py.Store.Tables.{
  UserTask, Storage, Device, TaskTempDevice, TaskTempSite, TaskTemplate, Db,
}

-- `a == b` of two columns
abbrev pub same_number : Option ℕ → Option ℕ → Bool
same_number none b = false
same_number (some m) b = is_number b m

-- NULL stands before every value in an ascending order.
abbrev pub null_first : Option ℕ → ℕ
null_first none = 0
null_first (some n) = suc n

module _ {ℓ κ} {A : Type ℓ} {B : Type κ} where
  -- The rows of `B` that go with one row of `A`.
  abbrev pub join_row : (A → B → Bool) → A → List B → List (A × B)
  join_row on a [] = []
  join_row on a (b ∷ bs) = let rest = join_row on a bs in if on a b then (a, b) ∷ rest else rest

  abbrev pub join : (A → B → Bool) → List A → List B → List (A × B)
  join on [] bs = []
  join on (a ∷ xs) bs = join_row on a bs ++ join on xs bs

-- TaskTempSiteRepository
unfoldable pub select_by_template_type_ordered : ℕ → String → Db → List TaskTempSite
unfolding select order_asc
select_by_template_type_ordered template site_type db =
    order_asc (λ t. null_first t.order_index)
      (select (λ t. is_number t.task_template_id template && is_text t.site_type site_type)
        db.temp_sites)

-- `column == value` for a value that may be `None`, which asks for NULL.
abbrev pub is_code : Option ℕ → Option ℕ → Bool
is_code none none = true
is_code (some n) none = false
is_code o (some n) = is_number o n

unfoldable pub select_run_task_temp_by_site : Option ℕ → String → Option ℕ → Db → List TaskTemplate
unfolding select
select_run_task_temp_by_site site_code site_type excluded db =
    map (λ (p : TaskTemplate × TaskTempSite). p.0)
      (select
        (λ (p : TaskTemplate × TaskTempSite).
          is_code p.1.site_code site_code
          && is_text p.1.site_type site_type
          && is_text p.0.run_status "0"
          && not (is_number excluded p.0.task_template_id))
        (join (λ t s. is_number s.task_template_id t.task_template_id) db.templates db.temp_sites))

unfoldable pub find_storage : ℕ → String → String → Db → Option Storage
unfolding select order_asc
find_storage template site_type site_status db = first (
    map (λ (p : Storage × TaskTempSite). p.0)
      (order_asc (λ (p : Storage × TaskTempSite). null_first p.1.order_index)
        (select
          (λ (p : Storage × TaskTempSite).
            is_text p.0.site_status site_status
            && is_text p.1.site_type site_type
            && is_number p.1.task_template_id template)
          (join (λ s t. same_number t.site_code s.site_code) db.storages db.temp_sites))))

-- UserTaskRepository
abbrev pub is_registered : Db → ℕ → UserTask → TaskTempDevice → Bool
is_registered db imei t d =
    same_number d.task_template_id t.task_template_id && is_number d.device_imei imei

unfoldable pub select_run_task_by_type : ℕ → String → String → Db → List UserTask
unfolding select order_asc
select_run_task_by_type imei send_flag task_type db =
    order_asc (λ t. t.user_task_id)
      (map (λ (p : UserTask × TaskTempDevice). p.0)
        (select
          (λ (p : UserTask × TaskTempDevice).
            is_number p.1.device_imei imei
            && is_text p.0.send_flag send_flag
            && is_text p.0.task_type task_type)
          (join (λ t d. same_number d.task_template_id t.task_template_id) db.user_tasks
            db.temp_devices)))

unfoldable pub select_by_flag_type : String → String → Bool → Db → List UserTask
unfolding select order_asc order_desc
select_by_flag_type send_flag task_type desc db =
    let rows =
      select (λ t. is_text t.send_flag send_flag && is_text t.task_type task_type) db.user_tasks in
    if desc then order_desc (λ t. t.user_task_id) rows else order_asc (λ t. t.user_task_id) rows

unfoldable pub select_by_device_flag : ℕ → String → Db → List UserTask
unfolding select order_asc
select_by_device_flag imei send_flag db =
    order_asc (λ t. t.user_task_id)
      (select (λ t. is_number t.device_imei imei && is_text t.send_flag send_flag) db.user_tasks)

-- In progress, and the site is its start or its end.
unfoldable pub find_site_task : ℕ → Db → List UserTask
unfolding select
find_site_task site_code db =
    select
      (λ t.
        (is_text t.send_flag "1" || is_text t.send_flag "2")
        && (is_number t.start_site_code site_code || is_number t.end_site_code site_code))
      db.user_tasks

abbrev pub any_of : List String → String → Bool
any_of [] v = false
any_of (g ∷ gs) v = str_eq v g || any_of gs v

-- `column.in_(values)`
abbrev pub in_values : Option String → List String → Bool
in_values none vs = false
in_values (some v) vs = any_of vs v

unfoldable pub select_by_flags_type : List String → String → Db → List UserTask
unfolding select
select_by_flags_type flags task_type db =
    select (λ t. in_values t.send_flag flags && is_text t.task_type task_type) db.user_tasks

-- StorageRepository.update_by_pk: the row of the storage's key is written over.
unfoldable pub save_storage : Storage → Db → Db
unfolding update_by_example
save_storage s db = record db {
  storages = update_by_example (λ _. s) (λ r. str_eq r.storage_id s.storage_id) db.storages;
}

unfoldable pub save_task : UserTask → Db → Db
unfolding update_by_example
save_task t db = record db {
  user_tasks = update_by_example (λ _. t) (λ r. r.user_task_id == t.user_task_id) db.user_tasks;
}
