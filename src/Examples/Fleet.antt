-- ===== src/Examples/Fleet.antt =====
-- Heartbeats and task frames of vehicle 5.
use ygvcs_py.Prelude.{
  ℕ, ◌+◌, ◌≡◌, ◌⊎◌, inl, refl, true, false, none, some, List, [], ◌∷◌, Text, Bytes, String, codes,
  arith,
}
use ygvcs_py.Prelude.Raises.{Raises, ok}
use ygvcs_py.Tcp.Bytes.{bytes_to_int, split_byte, hex_string_to_bytes}
use ygvcs_py.Tcp.Checked.{checked_crc}
use ygvcs_py.Tcp.Futures.{JsonMsg}
use ygvcs_py.Store.Tables.{UserTask, Storage, Db}
use ygvcs_py.Store.Query.Sorted.{In}
use ygvcs_py.Vehicle.Memory.{MemoryTable, memory_table, parse_memory_table}
use ygvcs_py.Vehicle.Memory.Fields.{InRange, parse_memory_table-InRange}
use ygvcs_py.Vehicle.Frames.{WayPoint, password, append_task_msg}
use ygvcs_py.Vehicle.Frames.Content.{Carries, append_task_msg-Carries}
use ygvcs_py.Vehicle.Frames.Dispatch.{Dispatching, dispatch_task}
use ygvcs_py.Vehicle.Frames.Dispatch.Answered.{DispatchVerdict, dispatch_task_verdict}
use ygvcs_py.Vehicle.Camera.{slot_key, Observed}
use ygvcs_py.Vehicle.Camera.Places.{CameraRun, is_update_storage}
use ygvcs_py.Vehicle.Reports.{Reports, update_task, update_row}
use ygvcs_py.Vehicle.Reports.Once.{update_task_once}
use ygvcs_py.Vehicle.Reports.Slots.{update_row_never_free}

-- The first 32 bytes of a heartbeat: task 9 of vehicle 5, task flag 2.
abbrev pub heartbeat : Bytes
heartbeat =
    0x20 ∷ 0xbf ∷ 0x40 ∷ 0x7f ∷ 0 ∷ 0 ∷ 0 ∷ 9 ∷ 0 ∷ 0 ∷ 0 ∷ 5 ∷ 0 ∷ 20 ∷ 0x82 ∷ 0 ∷ 0 ∷ 100 ∷ 0 ∷ 0
    ∷ 200 ∷ 0 ∷ 0 ∷ 0 ∷ 0 ∷ 0 ∷ 0 ∷ 0 ∷ 0 ∷ 90 ∷ 0 ∷ 0x20 ∷ []

parse_memory_table-InRange_example :
    (t : MemoryTable) × (parse_memory_table heartbeat ≡ ok t) × InRange t
parse_memory_table-InRange_example = parse_memory_table-InRange heartbeat (omega arith)

abbrev pub task : UserTask
task = record {
  user_task_id = 9;
  device_imei = some 5;
  send_flag = some "1";
  fun_code = some "B2";
  start_site_code = some 100;
  end_site_code = some 200;
  start_storage_height = some 0;
  end_storage_height = some 0;
  start_handel = some "1";
  end_handel = some "2";
  is_loop = some "0";
  task_type = some "1";
  lift_height = some 100;
  task_group_id = none;
  start_site_name = none;
  end_site_name = none;
  message_id = none;
  pick_place_state = some "0";
  task_is_cancel = some "0";
  task_template_id = some 7;
  device_type = none;
  created_imei = some "5";
  way_points = none;
}

abbrev pub depot : Db
depot = record {
  user_tasks = task ∷ [];
  storages = [];
  devices = [];
  relations = [];
  temp_devices = [];
  temp_sites = [];
  templates = [];
  sequences = [];
  spare_sites = [];
  site_manages = [];
}

append_task_msg-Carries_example :
    (t : Text) × (frame : Bytes) × (append_task_msg task 5 [] ≡ ok t)
    × (hex_string_to_bytes (some t) ≡ ok (some frame))
    × (checked_crc frame password ≡ true)
    × Carries task 5 100 frame
append_task_msg-Carries_example =
    append_task_msg-Carries task 5 100 1 2 refl refl (omega arith) refl (omega arith) (omega arith)
      (omega arith) (omega arith) (omega arith)

-- A vehicle that answers every frame with an acknowledgement, and counts the frames.
abbrev pub acknowledging : Text → ℕ → JsonMsg × ℕ
acknowledging frame n = (
  record {
    status = true;
    msg = some (codes "20BF407F0000000900000005B20001FF");
    other_data = none;
  },
  n + 1,
)

abbrev pub no_way_points : String → Raises (List WayPoint)
no_way_points text = ok []

abbrev pub idle : Dispatching ℕ
idle = record { dispatch_busy = []; op_busy = []; db = depot; world = 0 }

abbrev pub table : MemoryTable
table = memory_table heartbeat none none

dispatch_task_verdict_example :
    DispatchVerdict no_way_points acknowledging 3 4 table true idle
      (dispatch_task no_way_points acknowledging true 3 4 table idle)
dispatch_task_verdict_example =
    dispatch_task_verdict no_way_points acknowledging 3 4 table true idle refl

abbrev pub reports : Reports
reports = record {
  flag_map = [];
  db = depot;
  fork_status = [];
  not_task_time = [];
  storage_state = [];
  task_state = [];
  replies = [];
}

update_task_once_example :
    (update_task heartbeat false (update_task heartbeat true reports)).db
    ≡ (update_task heartbeat true reports).db
update_task_once_example = update_task_once heartbeat false reports

abbrev shelf : Storage
shelf = record {
  storage_id = "A";
  storage_name = none;
  storage_hight = none;
  site_name = none;
  site_code = some 100;
  site_status = some "0";
  site_type = some "2";
  is_enable = some "0";
}

abbrev with_shelf : Reports
with_shelf = record reports { db = record depot { storages = shelf ∷ [] } }

update_row_never_free_example : In shelf with_shelf.db.storages ⊎ (shelf.site_status ≡ some "1")
unfolding update_row split_byte bytes_to_int
update_row_never_free_example = update_row_never_free heartbeat with_shelf shelf (inl refl)

abbrev at_five : Observed
at_five = record { state = 1; number = 5 }

-- Slot 1 of camera 1, whose entry holds the state 1 with the counter 5.
abbrev sightings : CameraRun
sightings = record {
  cameras = record { old_states = []; camera_states = (slot_key 1 1, at_five) ∷ [] };
  db = depot;
  busy = [];
  stopped = false;
}

abbrev show : ℕ → String
show n = "1"

abbrev seen_again : CameraRun
seen_again = is_update_storage show 1 2 (λ code. false) 1 1 1 sightings
