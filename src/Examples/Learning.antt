-- ===== src/Examples/Learning.antt =====
-- An import of one station, and vehicle 5 placed on the line that it learned there.
use ygvcs_py.Prelude.{ℕ, Bool, ltb, length, none, some, List, [], ◌∷◌, String, Text, codes}
use ygvcs_py.Prelude.Raises.{Raises, ok}
use ygvcs_py.Store.Tables.{SiteManage}
use ygvcs_py.Tcp.Futures.{JsonMsg, ok_msg}
use ygvcs_py.Vehicle.Memory.{MemoryTable}
use ygvcs_py.Learned.{ForkliftLine, Learned, ExportSqlInfo, import_sql_info, init_location}
use ygvcs_py.Learned.Imported.{Imported, import_sql_info-Imported}
use ygvcs_py.Learned.Placed.{Placed, init_location-Placed}
use ygvcs_py.Examples.Fleet.{depot, table}

abbrev station : SiteManage
station = record {
  manage_id = "m";
  site_manage_id = some 100;
  site_manage_name = some "gate";
  site_attr = some "9";
  customer_id = none;
}

abbrev way : ForkliftLine
way = record {
  forklift_line_id = 7;
  line_name = none;
  start_site_id = none;
  start_site_name = none;
  start_site_code = some 100;
  end_site_id = none;
  end_site_name = none;
  end_site_code = some 101;
  device_imei = some 5;
  step_number = some 2;
  is_backing_up = none;
  parent_line_id = none;
  line_attr = none;
  return_line_id = some 8;
  return_parent_id = none;
  area_id = none;
  is_radar = none;
  line_item = none;
  is_corrects_line = none;
  customer_id = none;
}

abbrev learned : Learned
learned = record { db = depot; lines = way ∷ [] }

abbrev export_of : String → Raises ExportSqlInfo
export_of content = ok record { site_manage_list = station ∷ []; forklift_line_list = way ∷ [] }

abbrev one_id : ℕ → String
one_id n = "P"

-- A database that takes one station at most.
abbrev takes_one : Learned → Bool
takes_one s = ltb (length s.db.site_manages) 2

import_sql_info-Imported_example :
    Imported takes_one one_id "data"
      (export_of "data")
      learned
      (import_sql_info takes_one one_id export_of (some "data") learned)
import_sql_info-Imported_example =
    import_sql_info-Imported takes_one one_id export_of "data" learned

-- The wire keeps what was sent, and every vehicle takes it.
abbrev wire : Text → List Text → JsonMsg × List Text
wire frame w = (ok_msg none, frame ∷ w)

abbrev idle_vehicle_5 : MemoryTable
idle_vehicle_5 = record table { flag = some (codes "77") }

init_location-Placed_example :
    Placed wire 1 5 100
      (way ∷ [])
      []
      (some idle_vehicle_5)
      (init_location wire 1 5 100 (some idle_vehicle_5) (way ∷ []) [])
init_location-Placed_example = init_location-Placed wire 1 5 100 (some idle_vehicle_5) (way ∷ []) []
