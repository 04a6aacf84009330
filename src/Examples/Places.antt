-- ===== src/Examples/Places.antt =====
-- A scan and a binding at one place.
use ygvcs_py.Prelude.{ℕ, ◌≡◌, refl, none, some, [], ◌∷◌, String}
use ygvcs_py.Store.Query.{select}
use ygvcs_py.Store.Tables.{Storage, StorageDeviceRelation, Db}
use ygvcs_py.Tasks.Reply.{JsonResult, success}
use ygvcs_py.Sites.{StorageInfo, conflict, edit_storage_device}
use ygvcs_py.Sites.Binding.{Rebound, edit_storage_device-In}

abbrev shelf : Storage
shelf = record {
  storage_id = "A";
  storage_name = none;
  storage_hight = none;
  site_name = none;
  site_code = some 100;
  site_status = some "2";
  site_type = some "1";
  is_enable = some "0";
}

abbrev relation : String → ℕ → StorageDeviceRelation
relation imei code = record {
  storage_device_relation_id = 0;
  device_imei = some imei;
  device_name = none;
  type = none;
  site_code = some code;
  site_name = none;
  site_type = none;
  order_no = none;
}

abbrev places : Db
places = record {
  user_tasks = [];
  storages = shelf ∷ [];
  devices =
      record {
        device_imei = "5";
        ip_str = none;
        device_name = none;
        type = some "2";
        flag = none;
        code_act = none;
        is_enable = some "0";
        action = none;
        call_type = none;
      }
      ∷ [];
  relations = relation "5" 100 ∷ relation "6" 200 ∷ [];
  temp_devices = [];
  temp_sites = [];
  templates = [];
  sequences = [];
  spare_sites = [];
  site_manages = [];
}

abbrev third : StorageInfo
third = record { site_code = 300; site_name = none; site_type = none; order_no = none }

abbrev bound_anew : JsonResult × Db
bound_anew = edit_storage_device (λ n. n) "5" none none (third ∷ []) places

edit_storage_device-In_example :
    (bound_anew.0 ≡ success) × Rebound "5" (third ∷ []) places.relations bound_anew.1.relations
unfolding conflict select
edit_storage_device-In_example =
    edit_storage_device-In (λ n. n) "5" none none (third ∷ []) places refl
