-- ===== src/Examples/Yard.antt =====
-- Devices, and a heartbeat of vehicle 5.
use ygvcs_py.Prelude.{ℕ, ◌≡◌, inl, refl, true, none, some, List, [], ◌∷◌, String, Text}
use ygvcs_py.Prelude.Raises.{Raises, ok}
use ygvcs_py.Store.Query.{select_one, select}
use ygvcs_py.Store.Tables.{Device}
use ygvcs_py.Tasks.Reply.{fail, notice}
use ygvcs_py.Vehicle.Heartbeat.{Plant, Circumstances, message_handler}
use ygvcs_py.Vehicle.Heartbeat.Stored.{Handled, message_handler-table}
use ygvcs_py.Devices.{Devices, DeviceAddForm, DeviceEditForm, edit_device}
use ygvcs_py.Devices.Mirror.{Mirror, Call, adds, edits, deletes, registers, run_all, run_all-Mirror}
use ygvcs_py.Devices.Naming.{edit_device-name_taken}
use ygvcs_py.Examples.Fleet.{heartbeat, depot, idle, reports, acknowledging, no_way_points}

abbrev truck : Device
truck = record {
  device_imei = "5";
  ip_str = none;
  device_name = some "truck";
  type = some "1";
  flag = none;
  code_act = none;
  is_enable = some "0";
  action = some "2";
  call_type = none;
}

abbrev yard : Devices
yard = record { db = record depot { devices = truck ∷ [] }; kept = [] }

abbrev renaming : DeviceEditForm
renaming = record {
  device_imei = "5";
  device_name = some "truck";
  is_enable = none;
  code_act = some "1";
  action = none;
}

-- The form only asks for another code, and repeats the name that the device has.
edit_device-name_taken_example :
    edit_device renaming yard ≡ (fail "1" (notice "device.addDevice.nameExists"), yard)
unfolding select_one select
edit_device-name_taken_example =
    edit_device-name_taken renaming yard truck truck "truck" refl refl refl (inl refl) refl

abbrev adding : DeviceAddForm
adding = record {
  device_imei = "6";
  device_name = "box";
  type = "3";
  is_enable = some "0";
  code_act = none;
  action = none;
}

abbrev visits : List Call
visits = adds adding ∷ edits renaming ∷ registers "7" ∷ deletes "6" ∷ []

yard-Mirror : Mirror yard
yard-Mirror = record { rows = λ k d m. absurd m }

run_all-Mirror_example : Mirror (run_all visits yard)
run_all-Mirror_example = run_all-Mirror visits yard yard-Mirror

abbrev plant : Plant ℕ
plant = record { tables = []; kept = []; reports = reports; dispatching = idle }

abbrev calm : Circumstances
calm = record { unlocked = true; ready = true; random = 3; random' = 4 }

abbrev queue : Text → ℕ → Raises ℕ
queue frame n = ok n

abbrev show : ℕ → String
show n = "5"

abbrev beaten : Plant ℕ
beaten = message_handler acknowledging queue no_way_points show calm heartbeat plant

message_handler-table_example : Handled heartbeat plant beaten
message_handler-table_example =
    message_handler-table acknowledging queue no_way_points show calm heartbeat plant
