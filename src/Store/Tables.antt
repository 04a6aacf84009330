-- ===== src/Store/Tables.antt =====
-- app/models/tables.py: the rows that the task logic reads and writes. The columns that only record
-- who made or changed a row and when (created_by, created_date, created_time, updated_by,
-- updated_date) are left out, as no code reads them to decide; so are columns that no code uses.
use ygvcs_py.Prelude.{ℕ, Option, List, String}

pub record UserTask : Type 0 where
  pub user_task_id : ℕ
  pub device_imei : Option ℕ
  pub send_flag : Option String
  pub fun_code : Option String
  pub start_site_code : Option ℕ
  pub end_site_code : Option ℕ
  pub start_storage_height : Option ℕ
  pub end_storage_height : Option ℕ
  pub start_handel : Option String
  pub end_handel : Option String
  pub is_loop : Option String
  pub task_type : Option String
  pub lift_height : Option ℕ
  pub task_group_id : Option String
  pub start_site_name : Option String
  pub end_site_name : Option String
  pub message_id : Option String
  pub pick_place_state : Option String
  pub task_is_cancel : Option String
  pub task_template_id : Option ℕ
  pub device_type : Option String
  pub created_imei : Option String
  pub way_points : Option String

pub record Storage : Type 0 where
  pub storage_id : String
  pub storage_name : Option String
  pub storage_hight : Option ℕ
  pub site_name : Option String
  pub site_code : Option ℕ
  pub site_status : Option String
  pub site_type : Option String
  pub is_enable : Option String

pub record Device : Type 0 where
  pub device_imei : String
  pub ip_str : Option String
  pub device_name : Option String
  pub type : Option String
  pub flag : Option String
  pub code_act : Option String
  pub is_enable : Option String
  pub action : Option String
  pub call_type : Option String

pub record StorageDeviceRelation : Type 0 where
  pub storage_device_relation_id : ℕ
  pub device_imei : Option String
  pub device_name : Option String
  pub type : Option String
  pub site_code : Option ℕ
  pub site_name : Option String
  pub site_type : Option String
  pub order_no : Option ℕ

pub record TaskTempDevice : Type 0 where
  pub task_temp_device_id : ℕ
  pub device_imei : Option ℕ
  pub task_template_id : Option ℕ

pub record TaskTempSite : Type 0 where
  pub task_temp_site_id : ℕ
  pub site_type : Option String
  pub site_code : Option ℕ
  pub site_name : Option String
  pub task_template_id : Option ℕ
  pub order_index : Option ℕ

pub record TaskTempSpareSite : Type 0 where
  pub task_temp_spare_site_id : ℕ
  pub task_template_id : Option ℕ
  pub site_type : Option String
  pub main_site_code : Option ℕ
  pub main_site_name : Option String
  pub site_code : Option ℕ
  pub site_name : Option String
  pub order_index : Option ℕ

-- The name of a station, by its number.
pub record SiteManage : Type 0 where
  pub manage_id : String
  pub site_manage_id : Option ℕ
  pub site_manage_name : Option String
  pub site_attr : Option String
  pub customer_id : Option String

pub record TaskTemplate : Type 0 where
  pub task_template_id : ℕ
  pub template_name : Option String
  pub run_status : Option String

pub record Sequence : Type 0 where
  pub id : ℕ
  pub code : String
  pub name : String
  pub current_value : ℕ
  pub increment : ℕ

pub record Db : Type 0 where
  pub user_tasks : List UserTask
  pub storages : List Storage
  pub devices : List Device
  pub relations : List StorageDeviceRelation
  pub temp_devices : List TaskTempDevice
  pub temp_sites : List TaskTempSite
  pub templates : List TaskTemplate
  pub sequences : List Sequence
  pub spare_sites : List TaskTempSpareSite
  pub site_manages : List SiteManage
