-- ===== src/Learned.antt =====
-- app/services/process_service.py (import_sql_info), app/services/forklift_line.py with its
-- repository, and init_location of app/services/device.py: the stations and lines that were learned,
-- and placing a vehicle on them. `parse` is the JSON library with the check of the form's data, and `takes` whether the database takes
-- the new rows, whose keys have to be there and to differ. Lines
-- and stations are kept with the columns that some code reads; the lists of them in Redis, which
-- only the pages read, are left out.
pub mod Imported
pub mod Placed
use ygvcs_py.Prelude.{
  ℕ, suc, Bool, true, false, not, ◌&&◌, ◌||◌, Option, none, some, List, [], ◌∷◌, ◌++◌, String, ◌==◌,
  ltb, if◌then◌else◌, Text, codes, map,
}
use ygvcs_py.Prelude.Raises.{Raises, ok, raised}
use ygvcs_py.Store.Query.{is_text, is_number, select}
use ygvcs_py.Store.Tables.{Storage, SiteManage, Db}
use ygvcs_py.Tasks.Reply.{JsonResult, success, fail, notice}
use ygvcs_py.Tcp.Bytes.{int_to_hex}
use ygvcs_py.Tcp.Checked.{get_crc_to_send}
use ygvcs_py.Tcp.Constants.{code_at}
use ygvcs_py.Tcp.Futures.{JsonMsg}
use ygvcs_py.Vehicle.Memory.{MemoryTable}
use ygvcs_py.Vehicle.Frames.{join_texts, password}
use ygvcs_py.UserTasks.Guards.{is_flag, not_connected}
use ygvcs_py.Devices.{is_written}

-- The columns but who changed a row and when, the coordinates and the floor.
pub record ForkliftLine : Type 0 where
  pub forklift_line_id : ℕ
  pub line_name : Option String
  pub start_site_id : Option String
  pub start_site_name : Option String
  pub start_site_code : Option ℕ
  pub end_site_id : Option String
  pub end_site_name : Option String
  pub end_site_code : Option ℕ
  pub device_imei : Option ℕ
  pub step_number : Option ℕ
  pub is_backing_up : Option ℕ
  pub parent_line_id : Option ℕ
  pub line_attr : Option String
  pub return_line_id : Option ℕ
  pub return_parent_id : Option ℕ
  pub area_id : Option String
  pub is_radar : Option String
  pub line_item : Option String
  pub is_corrects_line : Option String
  pub customer_id : Option String

pub record Learned : Type 0 where
  pub db : Db
  pub lines : List ForkliftLine

-- `append_storage`; `id` is the text of a new id.
unfoldable pub append_storage : String → SiteManage → Storage
append_storage id sm = record {
  storage_id = id;
  storage_name = sm.site_manage_name;
  storage_hight = some 0;
  site_name = sm.site_manage_name;
  site_code = sm.site_manage_id;
  site_status = some "0";
  site_type = if is_text sm.site_attr "9" then some "1" else some "2";
  is_enable = some "0";
}

abbrev pub is_storage : SiteManage → Bool
is_storage sm = is_text sm.site_attr "9" || is_text sm.site_attr "11"

-- The places of the stations that have the attribute of one; `drawn` counts the new ids.
unfoldable pub storages_of : (ℕ → String) → ℕ → List SiteManage → List Storage
unfolding append_storage
storages_of ids drawn [] = []
storages_of ids drawn (sm ∷ sms) =
    let rest = storages_of ids (suc drawn) sms in
    let rest' = storages_of ids drawn sms in
    if is_storage sm then append_storage (ids drawn) sm ∷ rest else rest'

-- `ExportSqlInfoDto`, with an absent list as `[]`
pub record ExportSqlInfo : Type 0 where
  pub site_manage_list : List SiteManage
  pub forklift_line_list : List ForkliftLine

abbrev pub data_is_fail : JsonResult
data_is_fail = fail "1" (notice "process.importSqlInfo.DataIsFail")

abbrev pub replace_with : (ℕ → String) → List SiteManage → List ForkliftLine → Learned → Learned
replace_with ids sites lines s = record {
  db = record (s.db) { site_manages = sites; storages = storages_of ids 0 sites };
  lines = lines;
}

module _ (takes : Learned → Bool) (ids : ℕ → String) where
  -- The transaction: all of the new rows, or an exception of the database and the old ones.
  abbrev pub write_lists :
      List SiteManage → List ForkliftLine → Learned → Raises JsonResult × Learned
  write_lists sites lines s =
      let s' = replace_with ids sites lines s in if takes s' then (ok success, s') else (raised, s)

  abbrev pub import_lists :
      List SiteManage → List ForkliftLine → Learned → Raises JsonResult × Learned
  import_lists [] lines s = (ok data_is_fail, s)
  import_lists (sm ∷ sms) lines s = write_lists (sm ∷ sms) lines s

  abbrev pub import_data : Raises ExportSqlInfo → Learned → Raises JsonResult × Learned
  import_data raised s = (ok data_is_fail, s)
  import_data (ok dto) s = import_lists dto.site_manage_list dto.forklift_line_list s

  abbrev pub import_text :
      (String → Raises ExportSqlInfo) → Option String → Learned → Raises JsonResult × Learned
  import_text parse none s = (ok (fail "1" (notice "process.importSqlInfo.SiteListNotNull")), s)
  import_text parse (some content) s =
      if is_written (some content)
      then import_data (parse content) s
      else (ok (fail "1" (notice "process.importSqlInfo.SiteListNotNull")), s)

  unfoldable pub import_sql_info :
      (String → Raises ExportSqlInfo) → Option String → Learned → Raises JsonResult × Learned
  unfolding storages_of
  import_sql_info parse content s = import_text parse content s

unfoldable pub add_fork_line_list : List ForkliftLine → Learned → JsonResult × Learned
add_fork_line_list [] s = (fail "1" (notice "추가 실패!"), s)
add_fork_line_list (l ∷ ls) s = (success, record s { lines = s.lines ++ l ∷ ls })

abbrev pub is_there : Option ℕ → Bool
is_there none = false
is_there (some n) = true

-- `step_number > 1`, which is not so of NULL
abbrev pub above_one : Option ℕ → Bool
above_one none = false
above_one (some n) = ltb 1 n

abbrev pub returns : ℕ → ForkliftLine → Bool
returns imei l =
    is_number l.device_imei imei
    && (is_there l.return_line_id || is_there l.return_parent_id)
    && above_one l.step_number

unfoldable pub line_between : ℕ → ℕ → ℕ → List ForkliftLine → List ForkliftLine
unfolding select
line_between imei start end lines =
    select
      (λ l. returns imei l && is_number l.start_site_code start && is_number l.end_site_code end)
      lines

unfoldable pub line_at : ℕ → ℕ → List ForkliftLine → List ForkliftLine
unfolding select
line_at imei code lines =
    select
      (λ l. returns imei l && (is_number l.start_site_code code || is_number l.end_site_code code))
      lines

-- `get_line_to_init` of the service: by both ends where both are given.
unfoldable pub get_line_to_init :
    ℕ → Option ℕ → Option ℕ → ℕ → List ForkliftLine → List ForkliftLine
unfolding line_between line_at
get_line_to_init imei (some start) (some end) code lines = line_between imei start end lines
get_line_to_init imei start end code lines = line_at imei code lines

-- `x if x else d` of a number, where 0 counts as missing
abbrev pub given : Option ℕ → Option ℕ
given none = none
given (some n) = if n == 0 then none else some n

abbrev pub or_given : Option ℕ → Option ℕ → ℕ
or_given (some n) b = n
or_given none (some n) = n
or_given none none = 0

abbrev pub return_number : ForkliftLine → ℕ
return_number l = or_given (given l.return_line_id) (given l.return_parent_id)

unfoldable pub init_frame : ℕ → ℕ → ℕ → ForkliftLine → Raises Text
unfolding join_texts
init_frame random imei site_code line =
    get_crc_to_send
      (join_texts (
        codes "40BF807F"
        ∷ int_to_hex random 4
        ∷ int_to_hex imei 4
        ∷ code_at 71
        ∷ codes "0007"
        ∷ int_to_hex site_code 3
        ∷ codes "00"
        ∷ int_to_hex (return_number line) 3
        ∷ []))
      password

abbrev pub init_flags : List Text
init_flags = codes "77" ∷ codes "78" ∷ codes "83" ∷ codes "79" ∷ []

module _ {W : Type 0} (send : Text → W → JsonMsg × W) where
  abbrev pub send_init : Raises Text → W → Raises JsonResult × W
  send_init raised w = (raised, w)
  send_init (ok frame) w =
      let (r, w') = send frame w in
      if r.status
      then (ok success, w')
      else (ok (fail "1" (notice "TaskService.sendTask.TaskIsFail")), w')

  abbrev pub init_on : ℕ → MemoryTable → ℕ → List ForkliftLine → W → Raises JsonResult × W
  init_on random t site_code [] w =
      (ok (fail "1" (notice "site.initLocation.siteCodeLineNotLearn")), w)
  init_on random t site_code (l ∷ ls) w = send_init (init_frame random t.device_imei site_code l) w

  abbrev pub init_vehicle :
      ℕ → ℕ → ℕ → Option MemoryTable → List ForkliftLine → W → Raises JsonResult × W
  init_vehicle random imei site_code none lines w = (ok not_connected, w)
  init_vehicle random imei site_code (some t) lines w =
      if is_flag t.flag (codes "FF" ∷ [])
      then (ok not_connected, w)
      else if not (is_flag t.flag init_flags)
      then (ok (fail "1" (notice "device.notIdle")), w)
      else init_on random t site_code (get_line_to_init imei none none site_code lines) w

  unfoldable pub init_location :
      ℕ → ℕ → ℕ → Option MemoryTable → List ForkliftLine → W → Raises JsonResult × W
  unfolding get_line_to_init init_frame
  init_location random imei site_code table lines w =
      init_vehicle random imei site_code table lines w
