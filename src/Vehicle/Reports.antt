-- ===== src/Vehicle/Reports.antt =====
-- app/services/user_task_proxy.py: what a vehicle's heartbeat changes in the tables.
-- Redis is kept as the keys that this service writes; an expiry is a change of that state between
-- two calls. `unlocked` is whether the vehicle answers the unlock command. The frames that are
-- queued are listed, newest first.
pub mod Once
pub mod Slots
use ygvcs_py.Prelude.{
  ℕ, ◌+◌, ◌/◌, ◌^◌, Bool, true, false, not, ◌&&◌, ◌||◌, Option, none, some, List, [], ◌∷◌, ◌++◌,
  String, Text, Bytes, codes, ◌==◌, if◌then◌else◌, bit_and, first, str_eq,
}
use ygvcs_py.Prelude.Raises.{Raises, ok, raised}
use ygvcs_py.Tcp.Bytes.{int_to_hex}
use ygvcs_py.Tcp.Checked.{get_crc_to_send}
use ygvcs_py.Tcp.Constants.{code_at, length_at}
use ygvcs_py.Store.Query.{is_text, is_number, select, select_one, update_by_example}
use ygvcs_py.Store.Tables.{UserTask, Storage, Db}
use ygvcs_py.Store.Repos.{save_storage, save_task}
use ygvcs_py.Vehicle.Memory.{field}
use ygvcs_py.Vehicle.Frames.{join_texts, password}

-- `_TaskInfo`, less the flag text, which is not read
pub record TaskInfo : Type 0 where
  pub user_task_id : ℕ
  pub device_imei : ℕ
  pub task_flag : ℕ

pub record Reports : Type 0 where
  pub flag_map : List (ℕ × TaskInfo)
  pub db : Db
  pub fork_status : List ((ℕ × ℕ) × ℕ)
  pub not_task_time : List ℕ
  pub storage_state : List (ℕ × String)
  pub task_state : List String
  pub replies : List Text

-- `_flag_map.get(imei)`, where the newest entry stands first
unfoldable pub last_info : ℕ → List (ℕ × TaskInfo) → Option TaskInfo
last_info imei [] = none
last_info imei ((i, t) ∷ ts) = if i == imei then some t else last_info imei ts

abbrev pub is_same : Option TaskInfo → TaskInfo → Bool
is_same none t = false
is_same (some old) t = old.user_task_id == t.user_task_id && old.task_flag == t.task_flag

unfoldable pub is_update_db : TaskInfo → Reports → Bool × Reports
unfolding last_info
is_update_db t s =
    if is_same (last_info t.device_imei s.flag_map) t
    then (false, s)
    else (true, record s { flag_map = (t.device_imei, t) ∷ s.flag_map })

-- A frame that cannot be built is not sent.
abbrev pub queue : Raises Text → Reports → Reports
queue raised s = s
queue (ok t) s = record s { replies = t ∷ s.replies }

unfoldable pub reply_state : TaskInfo → Reports → Reports
reply_state t s =
    queue
      (get_crc_to_send
        (join_texts (
          codes "40BF807F"
          ∷ int_to_hex t.user_task_id 4
          ∷ int_to_hex t.device_imei 4
          ∷ code_at 40
          ∷ length_at 40
          ∷ int_to_hex t.task_flag 1
          ∷ []))
        password)
      s

unfoldable pub reply_fork_state : ℕ → ℕ → ℕ → Reports → Reports
reply_fork_state imei user_task_id fork_status s =
    queue
      (get_crc_to_send
        (join_texts (
          codes "40BF807F"
          ∷ int_to_hex user_task_id 4
          ∷ int_to_hex imei 4
          ∷ codes "9D"
          ∷ codes "0001"
          ∷ int_to_hex fork_status 1
          ∷ []))
        password)
      s

-- `send_unlock`
abbrev pub send_unlock : ℕ → Bool → Bool
send_unlock lock_state unlocked = lock_state == 0 || unlocked

abbrev pub set_send_flag : ℕ → String → Db → Db
set_send_flag id flag db = record db {
  user_tasks =
      update_by_example (λ t. record t { send_flag = some flag }) (λ t. t.user_task_id == id)
        db.user_tasks;
}

-- `storage_repository.select(db, {"site_code": code})`, the first row
abbrev pub first_site : ℕ → Db → Option Storage
first_site code db = select_one (λ r. is_number r.site_code code) db.storages

-- A site code that is there and not 0.
abbrev pub truthy : Option ℕ → Option ℕ
truthy none = none
truthy (some n) = if n == 0 then none else some n

abbrev pub with_status : Storage → String → Storage
with_status r v = record r { site_status = some v }

-- The end site of a task that has started, when it is to be put down there.
unfoldable pub reserve_end : Option UserTask → Reports → Reports
reserve_end none s = s
reserve_end (some ut) s = elim (truthy ut.end_site_code) [
  | none ↦ s
  | some code ↦
      if is_text ut.end_handel "2"
      then elim (first_site code s.db) [
        | none ↦ s
        | some r ↦
            if is_text r.site_type "1"
            then record s {
              db = save_storage (with_status r "1") s.db;
              storage_state = (code, "1") ∷ s.storage_state;
            }
            else if is_text r.site_type "2" && is_text r.site_status "3"
            then record s { db = save_storage (with_status r "0") s.db }
            else s
      ]
      else s
]

abbrev pub select_by_pk : ℕ → Db → Option UserTask
select_by_pk id db = select_one (λ t. t.user_task_id == id) db.user_tasks

-- What is written when the report is new: the flag, and for a start the end site too.
unfoldable pub record_flag : TaskInfo → String → Bool → Reports → Reports
unfolding reserve_end
record_flag t flag starting s =
    let s' = record s { db = set_send_flag t.user_task_id flag s.db } in
    if starting then reserve_end (select_by_pk t.user_task_id s'.db) s' else s'

abbrev pub mark_time : ℕ → Reports → Reports
mark_time imei s = record s { not_task_time = imei ∷ s.not_task_time }

-- One branch of `update_task`: the flag to write, whether the keyboard is unlocked first and the
-- time is marked, and whether the task starts.
unfoldable pub report : TaskInfo → String → Bool → Bool → Reports → Reports
unfolding is_update_db record_flag
report t flag timed starting s =
    let (new, s1) = is_update_db t s in
    let s2 = reply_state t (if new then record_flag t flag starting s1 else s1) in
    if timed then mark_time t.device_imei s2 else s2

unfoldable pub info_of : Bytes → TaskInfo
info_of frame = record {
  user_task_id = field frame 4 8 4;
  device_imei = field frame 8 12 4;
  task_flag = bit_and (field frame 31 32 1 / 2 ^ 4) 0xff;
}

unfoldable pub lock_state_of : Bytes → ℕ
lock_state_of frame = bit_and (field frame 120 121 1 / 2 ^ 3) 1

unfoldable pub update_task : Bytes → Bool → Reports → Reports
unfolding is_update_db
update_task frame unlocked s =
    let t = info_of frame in
    let open_ = send_unlock (lock_state_of frame) unlocked in
    if t.task_flag == 0
    then s
    else if t.task_flag == 1
    then (if open_ then report t "3" true true s else s)
    else if t.task_flag == 2
    then report t "2" false false s
    else if t.task_flag == 3
    then (if open_ then report t "4" true false s else s)
    else if t.task_flag == 4
    then (if open_ then report t "7" true false s else s)
    else (is_update_db t s).1

-- `_get_fork_state`: `none` for its -1
unfoldable pub stored_fork : ℕ → ℕ → List ((ℕ × ℕ) × ℕ) → Option ℕ
stored_fork imei id [] = none
stored_fork imei id ((k, v) ∷ ks) =
    if k.0 == imei && k.1 == id then some v else stored_fork imei id ks

unfoldable pub get_fork_state : Bytes → Reports → Option ℕ × Reports
unfolding stored_fork reply_fork_state
get_fork_state frame s =
    let imei = field frame 8 12 4 in
    let id = field frame 4 8 4 in
    let fork_status = bit_and (field frame 30 31 1) 3 in
    if fork_status == 0
    then (none, s)
    else if is_number (stored_fork imei id s.fork_status) fork_status
    then (none, reply_fork_state imei id fork_status s)
    else (some fork_status, s)

-- One site of the row: written only where it is a storage row.
unfoldable pub set_row_status : String → ℕ → Db → Db
set_row_status v code db = elim (first_site code db) [
  | none ↦ db
  | some r ↦ if is_text r.site_type "2" then save_storage (with_status r v) db else db
]

unfoldable pub update_row : Bytes → Reports → Reports
unfolding set_row_status reply_fork_state
update_row frame s =
    let flag = bit_and (field frame 120 121 1 / 2) 2 in
    let v = if flag == 1 then "0" else "1" in
    if flag == 1 || flag == 2
    then reply_fork_state (field frame 8 12 4) (field frame 4 8 4) (flag + 2) (record s {
      db = set_row_status v (field frame 18 21 3) (set_row_status v (field frame 15 18 3) s.db);
    })
    else s

abbrev pub site_set : Option ℕ → String → Db → Db
site_set code v db = elim (truthy code) [
  | none ↦ db
  | some c ↦ elim (first_site c db) [
    | none ↦ db
    | some r ↦ if is_text r.site_type "1" then save_storage (with_status r v) db else db
  ]
]

abbrev pub note_task : Option String → List String → List String
note_task none ts = ts
note_task (some String.[]) ts = ts
note_task (some (String.◌∷◌ c m)) ts = String.◌∷◌ c m ∷ ts

-- The load was picked up (1) or put down (2): the task's row, the site and the replies.
unfoldable pub fork_done : ℕ → ℕ → ℕ → String → String → Option ℕ → UserTask → Reports → Reports
unfolding reply_fork_state
fork_done imei id fork pick_place v site t s =
    let db = site_set site v (save_task (record t { pick_place_state = some pick_place }) s.db) in
    reply_fork_state imei id fork (record s {
      db = db;
      task_state = note_task t.message_id s.task_state;
      fork_status = ((imei, id), fork) ∷ s.fork_status;
    })

unfoldable pub update_fork : Bytes → ℕ → Reports → Reports
unfolding fork_done
update_fork frame fork s =
    let imei = field frame 8 12 4 in
    let id = field frame 4 8 4 in
    elim (select_by_pk id s.db) [
      | none ↦ s
      | some t ↦
          if fork == 1
          then fork_done imei id 1 "1" "0" t.start_site_code t s
          else if fork == 2
          then fork_done imei id 2 "2" "1" t.end_site_code t s
          else s
    ]

unfoldable pub update_storage_state : Bytes → Reports → Reports
unfolding update_row get_fork_state update_fork
update_storage_state frame s =
    let (fork, s') = get_fork_state frame (update_row frame s) in
    elim fork [ none ↦ s' | some f ↦ update_fork frame f s' ]
