-- ===== src/Devices.antt =====
-- app/services/device.py: the table of devices and the copies of its rows in Redis, and the
-- registration of a vehicle by its first heartbeat (app/tcp/heartbeat_processor.py). The forms have
-- the parts that their check asks for. A call is one transaction.
pub mod Mirror
pub mod Naming
pub mod Params
use ygvcs_py.Prelude.{
  ℕ, ◌+◌, ◌-◌, ◌*◌, Bool, true, false, not, ◌&&◌, ◌||◌, Option, none, some, List, [], ◌∷◌, ◌++◌,
  String, ◌==◌, leb, if◌then◌else◌, str_eq, Text, codes,
}
use ygvcs_py.Store.Query.{is_text, is_number, select, select_one, update_by_example, delete}
use ygvcs_py.Store.Tables.{Device, Db}
use ygvcs_py.Tasks.Reply.{JsonResult, success, fail, notice}

-- `str.isspace` of one character
abbrev pub is_space : ℕ → Bool
is_space c =
    (leb 9 c && leb c 13)
    || (leb 28 c && leb c 32)
    || c == 133
    || c == 160
    || c == 5760
    || (leb 8192 c && leb c 8202)
    || c == 8232
    || c == 8233
    || c == 8239
    || c == 8287
    || c == 12288

abbrev pub not_blank : Text → Bool
not_blank [] = false
not_blank (c ∷ cs) = not (is_space c) || not_blank cs

-- `x and x.strip()`
abbrev pub is_written : Option String → Bool
is_written none = false
is_written (some s) = not_blank (codes s)

-- The table, and the copies under the keys of the devices.
pub record Devices : Type 0 where
  pub db : Db
  pub kept : List (String × Device)

unfoldable pub drop_copy : String → List (String × Device) → List (String × Device)
drop_copy imei [] = []
drop_copy imei ((k, d) ∷ kept) =
    let rest = drop_copy imei kept in if str_eq k imei then rest else (k, d) ∷ rest

abbrev pub put_copy : String → Device → List (String × Device) → List (String × Device)
put_copy imei d kept = (imei, d) ∷ drop_copy imei kept

pub record DeviceAddForm : Type 0 where
  pub device_imei : String
  pub device_name : String
  pub type : String
  pub is_enable : Option String
  pub code_act : Option String
  pub action : Option String

pub record DeviceEditForm : Type 0 where
  pub device_imei : String
  pub device_name : Option String
  pub is_enable : Option String
  pub code_act : Option String
  pub action : Option String

abbrev pub has_imei : String → Device → Bool
has_imei imei d = str_eq d.device_imei imei

abbrev pub has_name : String → Device → Bool
has_name name d = is_text d.device_name name

abbrev pub any_row : List Device → Bool
any_row [] = false
any_row (d ∷ ds) = true

unfoldable pub new_device : DeviceAddForm → Device
new_device form = record {
  device_imei = form.device_imei;
  ip_str = none;
  device_name = some form.device_name;
  type = some form.type;
  flag = none;
  code_act = form.code_act;
  is_enable = form.is_enable;
  action = if is_written form.action then form.action else some "2";
  call_type = none;
}

abbrev pub insert_device : Device → Db → Db
insert_device d db = record db { devices = db.devices ++ d ∷ [] }

unfoldable pub add_device : DeviceAddForm → Devices → JsonResult × Devices
unfolding new_device drop_copy select
add_device form s =
    if any_row (select (has_imei form.device_imei) s.db.devices)
    then (fail "1" (notice "device.addDevice.imeiExists"), s)
    else if any_row (select (has_name form.device_name) s.db.devices)
    then (fail "1" (notice "device.addDevice.nameExists"), s)
    else if str_eq form.type "2" && not (is_written form.action)
    then (fail "1" (notice "device.addDevice.actionNotNull"), s)
    else (
      success,
      record {
        db = insert_device (new_device form) s.db;
        kept = put_copy form.device_imei (new_device form) s.kept;
      },
    )

-- The row as the form changes it.
unfoldable pub edited : DeviceEditForm → Device → Device
edited form d = record d {
  code_act = form.code_act;
  device_name = if is_written form.device_name then form.device_name else d.device_name;
  is_enable = if is_written form.is_enable then form.is_enable else d.is_enable;
  action = if is_written form.action then form.action else d.action;
}

abbrev pub name_taken : Option String → Db → Bool
name_taken none db = false
name_taken (some name) db = is_written (some name) && any_row (select (has_name name) db.devices)

unfoldable pub save_device : Device → Db → Db
unfolding update_by_example
save_device d db = record db {
  devices = update_by_example (λ _. d) (has_imei d.device_imei) db.devices;
}

-- The name is written to the places of the device, too.
unfoldable pub rename_places : DeviceEditForm → Db → Db
unfolding update_by_example
rename_places form db =
    if is_written form.device_name
    then record db {
      relations =
          update_by_example (λ r. record r { device_name = form.device_name })
            (λ r. is_text r.device_imei form.device_imei) db.relations;
    }
    else db

abbrev pub edit_row : DeviceEditForm → Option Device → Devices → JsonResult × Devices
edit_row form none s = (fail "1" (notice "device.editDevice.noDevice"), s)
edit_row form (some d) s =
    if name_taken form.device_name s.db
    then (fail "1" (notice "device.addDevice.nameExists"), s)
    else (
      success,
      record {
        db = save_device (edited form d) (rename_places form s.db);
        kept = put_copy d.device_imei (edited form d) s.kept;
      },
    )

unfoldable pub edit_device : DeviceEditForm → Devices → JsonResult × Devices
unfolding edited save_device rename_places drop_copy
edit_device form s = edit_row form (select_one (has_imei form.device_imei) s.db.devices) s

-- The number that a text of the digits 0 to 9 says. Other texts that Python reads as numbers, with a
-- minus sign or other digits, are left out.
abbrev pub digits_value : ℕ → Text → Option ℕ
digits_value n [] = some n
digits_value n (c ∷ cs) =
    let rest = digits_value (10 * n + (c - 48)) cs in if leb 48 c && leb c 57 then rest else none

abbrev pub number_of : Text → Option ℕ
number_of [] = none
number_of (c ∷ cs) = digits_value 0 (c ∷ cs)

abbrev pub without_vehicle : Option ℕ → Db → Db
without_vehicle none db = db
without_vehicle (some n) db = record db {
  temp_devices = delete (λ t. is_number t.device_imei n) db.temp_devices;
}

unfoldable pub del_device : String → Devices → JsonResult × Devices
unfolding delete drop_copy
del_device imei s = (
  success,
  record {
    db = without_vehicle (number_of (codes imei)) (record (s.db) {
      devices = delete (has_imei imei) s.db.devices;
      relations = delete (λ r. is_text r.device_imei imei) s.db.relations;
    });
    kept = drop_copy imei s.kept;
  },
)

-- A vehicle that the table has not, by its first heartbeat; `imei` is `str` of its number. Nothing
-- is copied to Redis.
unfoldable pub auto_device : String → Device
auto_device imei = record {
  device_imei = imei;
  ip_str = none;
  device_name = some imei;
  type = some "1";
  flag = none;
  code_act = none;
  is_enable = some "0";
  action = none;
  call_type = none;
}

unfoldable pub auto_register : String → Devices → Devices
unfolding auto_device select
auto_register imei s =
    if any_row (select (has_imei imei) s.db.devices)
    then s
    else record s { db = insert_device (auto_device imei) s.db }
