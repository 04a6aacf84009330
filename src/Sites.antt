-- ===== src/Sites.antt =====
-- app/services/storage.py: the status of a storage place, changed by a scan or a camera, and which
-- device is bound to which place. What create_task has committed stays when a later step raises.
pub mod Working
pub mod Bound
pub mod Binding
pub mod Area
use ygvcs_py.Prelude.{
  ℕ, Bool, true, false, not, ◌&&◌, ◌||◌, Option, none, some, List, [], ◌∷◌, ◌++◌, String,
  if◌then◌else◌, str_eq, first,
}
use ygvcs_py.Prelude.Raises.{Raises, ok, raised}
use ygvcs_py.Store.Query.{is_text, is_number, select, select_one, update_by_example, delete}
use ygvcs_py.Store.Tables.{Storage, Device, StorageDeviceRelation, Db}
use ygvcs_py.Tasks.Reply.{
  Notice, notice, site_notice, Outcome, JsonResult, success, not_created, fail,
}
use ygvcs_py.Tasks.Create.{Imei, nobody, written, TaskCreateForm, Created, create_task}

pub record SiteRun : Type 0 where
  pub result : Raises JsonResult
  pub db : Db
  pub busy : List Imei

abbrev pub answered : JsonResult → Db → List Imei → SiteRun
answered r db busy = record { result = ok r; db = db; busy = busy }

unfoldable pub get_storage_by_code : ℕ → Db → Option Storage
get_storage_by_code site_code db = select_one (λ r. is_number r.site_code site_code) db.storages

unfoldable pub edit_storage_row_status : ℕ → String → Db → Db
edit_storage_row_status site_code site_status db = record db {
  storages =
      update_by_example (λ r. record r { site_status = some site_status })
        (λ r. is_number r.site_code site_code) db.storages;
}

-- `device_repository.select_by_pk`
abbrev pub device_of : String → Db → Option Device
device_of imei db = select_one (λ d. str_eq d.device_imei imei) db.devices

-- `if device_imei and device_imei != "0"`
abbrev pub valid_imei : Option String → Option String
valid_imei none = none
valid_imei (some String.[]) = none
valid_imei (some (String.◌∷◌ c s)) =
    if str_eq (String.◌∷◌ c s) "0" then none else some (String.◌∷◌ c s)

abbrev pub to_imei : Option String → Imei
to_imei none = nobody
to_imei (some s) = written s

-- What is answered after create_task. Where the device is a camera, a refused task still sets the
-- status.
unfoldable pub after_create : Bool → ℕ → String → Db → Created → SiteRun
unfolding edit_storage_row_status
after_create camera site_code site_status db c = elim c.result [
  | raised ↦ record { result = raised; db = db; busy = c.busy }
  | ok (o, db') ↦
      if o.status
      then answered success db' c.busy
      else if camera
      then answered success (edit_storage_row_status site_code site_status db') c.busy
      else answered (not_created o.msg) db' c.busy
]

unfoldable pub edit_storage_status :
    (ℕ → String)
    → ℕ
    → ℕ
    → Option String
    → Option String
    → ℕ
    → String
    → Option String
    → List Imei
    → Db
    → SiteRun
unfolding get_storage_by_code edit_storage_row_status after_create
edit_storage_status show new_id auto device_imei device_type site_code site_status action_type busy
      db =
    let updated = answered success (edit_storage_row_status site_code site_status db) busy in
    let form : TaskCreateForm = record {
      device_imei = to_imei device_imei;
      code = site_code;
      code_act = some (if str_eq site_status "0" then "1" else "2");
      device_type = device_type;
    } in
    let created = create_task show new_id auto form busy db in
    let no_storage = answered (fail "1" (notice "site.editStorageStatus.noStorage")) db busy in
    elim (get_storage_by_code site_code db) [
      | none ↦ no_storage
      | some r ↦ if is_text r.is_enable "1" then no_storage else elim (valid_imei device_imei) [
        | none ↦
            if is_text action_type "1"
            then updated
            else after_create false site_code site_status db created
        | some imei ↦ elim (device_of imei db) [
          | none ↦ answered (fail "1" (notice "device.getDevice.noDevice")) db busy
          | some d ↦
              if is_text d.is_enable "1"
              then answered (fail "1" (notice "device.getDevice.noDevice")) db busy
              else if is_text d.action "1" || is_text action_type "1"
              then updated
              else after_create (is_text d.type "2") site_code site_status db created
        ]
      ]
    ]

abbrev pub is_bound : String → ℕ → StorageDeviceRelation → Bool
is_bound imei site_code r = is_text r.device_imei imei && is_number r.site_code site_code

-- The status is turned over, unless a task is at work at the place.
unfoldable pub edit_scan_storage_status :
    (ℕ → String) → ℕ → ℕ → String → Option String → ℕ → List Imei → Db → SiteRun
unfolding get_storage_by_code
edit_scan_storage_status show new_id auto device_imei device_type site_code busy db =
    elim (device_of device_imei db) [
      | none ↦ answered (fail "1" (notice "device.getDevice.noDevice")) db busy
      | some d ↦
          if is_text d.is_enable "1"
          then answered (fail "1" (notice "device.getDevice.noDevice")) db busy
          else elim (select (is_bound device_imei site_code) db.relations) [
            | [] ↦
                answered (fail "1" (notice "storageDevice.editScanStorageStatus.deviceIsBound")) db
                  busy
            | _ ∷ _ ↦ elim (get_storage_by_code site_code db) [
              | none ↦ answered (fail "1" (notice "site.editStorageStatus.noStorage")) db busy
              | some r ↦
                  if is_text r.is_enable "1"
                  then answered (fail "1" (notice "site.editStorageStatus.noStorage")) db busy
                  else if is_text r.site_status "2" || is_text r.site_status "3"
                  then answered (fail "1" (notice "site.editStorageStatus.storageWork")) db busy
                  else edit_storage_status show new_id auto (some device_imei) device_type site_code
                      (if is_text r.site_status "0" then "1" else "0") d.action busy db
            ]
          ]
    ]

-- One place of the form that binds places to a device.
pub record StorageInfo : Type 0 where
  pub site_code : ℕ
  pub site_name : Option String
  pub site_type : Option String
  pub order_no : Option ℕ

abbrev pub at_site : ℕ → StorageDeviceRelation → Bool
at_site site_code r = is_number r.site_code site_code

-- The first place of the form that another device holds.
unfoldable pub conflict : String → List StorageInfo → List StorageDeviceRelation → Option ℕ
conflict imei [] rels = none
conflict imei (info ∷ infos) rels =
    let rest = conflict imei infos rels in
    elim (select (λ r. at_site info.site_code r && not (is_text r.device_imei imei)) rels) [
      | [] ↦ rest
      | _ ∷ _ ↦ some info.site_code
    ]

-- The rows are added under ids that the id generator makes.
unfoldable pub bind_all :
    (ℕ → ℕ)
    → String
    → Option String
    → Option String
    → List StorageInfo
    → List StorageDeviceRelation
    → List StorageDeviceRelation
bind_all ids imei name type [] rels = rels
bind_all ids imei name type (info ∷ infos) rels = elim (select (at_site info.site_code) rels) [
  | _ ∷ _ ↦ bind_all ids imei name type infos rels
  | [] ↦ bind_all ids imei name type infos (
      rels
      ++ record {
        storage_device_relation_id = ids info.site_code;
        device_imei = some imei;
        device_name = name;
        type = type;
        site_code = some info.site_code;
        site_name = info.site_name;
        site_type = info.site_type;
        order_no = info.order_no;
      }
        ∷ [])
]

unfoldable pub edit_storage_device :
    (ℕ → ℕ) → String → Option String → Option String → List StorageInfo → Db → JsonResult × Db
unfolding conflict bind_all
edit_storage_device ids imei name type infos db = elim (conflict imei infos db.relations) [
  | some code ↦ (fail "1" (site_notice code "storageDevice.editStorageDevice.storageIsBound"), db)
  | none ↦ (
    success,
    record db {
      relations =
          bind_all ids imei name type infos (delete (λ r. is_text r.device_imei imei) db.relations);
    },
  )
]

unfoldable pub del_storage_device : ℕ → Db → JsonResult × Db
del_storage_device site_code db =
    (success, record db { relations = delete (at_site site_code) db.relations })
